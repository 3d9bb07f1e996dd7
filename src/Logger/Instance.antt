-- ===== src/Logger/Instance.antt =====
-- logger::instance, the constructor, the destructor and atexit_handler (logger.cpp). Every call
-- holds s_instance_mutex until it ends, so that calls come one after the other.
use epics_logfile.Base.{ℕ, ◌+◌, ◌≡◌, refl, Option, none, some}
use epics_logfile.Registry.{no_subsystems}
use epics_logfile.OutputStream.{OutputStream}
use epics_logfile.LogThread.{new_thread}
use epics_logfile.Logger.{Logger}

-- What SIGSEGV does: the default action, logger::signal_handler, or another handler.
pub data Handler : Type 0 where
  default_action logger_handler : Handler
  other_handler : ℕ → Handler

-- s_instance: null, the logger, or a pointer to a logger that was deleted.
pub data Instance (S : Type 0) : Type 0 where
  null deleted : Instance S
  live : Logger S → Instance S

-- The static members, the handler of SIGSEGV, and how often atexit_handler is registered.
pub record Program (S : Type 0) : Type 0 where
  pub s_instance : Instance S
  pub s_old_sighandler : Handler
  pub sigsegv : Handler
  pub atexit_handlers : ℕ

module _ {S : Type 0} where
  -- The constructor, with the stream to standard output at `a`. Its thread is started.
  unfoldable pub new_logger : ℕ → OutputStream S → Logger S
  unfolding new_thread
  new_logger a stdout = record { registry = no_subsystems; thread = some (new_thread a stdout) }

  -- What the first call leaves behind.
  unfoldable pub installed : ℕ → OutputStream S → Program S → Program S
  unfolding new_logger
  installed a stdout p = record {
    s_instance = Instance.live (new_logger a stdout);
    s_old_sighandler = p.sigsegv;
    sigsegv = Handler.logger_handler;
    atexit_handlers = p.atexit_handlers + 1;
  }

  -- instance. `none` is the use of a dangling pointer.
  unfoldable pub get_instance : ℕ → OutputStream S → Program S → Option (Logger S × Program S)
  unfolding new_logger installed
  get_instance a stdout p = elim p.s_instance [
    | Instance.null ↦ some (new_logger a stdout, installed a stdout p)
    | Instance.live l ↦ some (l, p)
    | Instance.deleted ↦ none
  ]

  -- atexit_handler: the destructor ends the thread, if it is there; s_instance keeps its value.
  -- `none` is a second delete.
  unfoldable pub atexit_handler : Program S → Option (Program S)
  atexit_handler p = elim p.s_instance [
    | Instance.null ↦ some p
    | Instance.live l ↦ some (record p { s_instance = Instance.deleted })
    | Instance.deleted ↦ none
  ]

  -- The first call of instance() makes the logger and installs the two handlers; each later call
  -- gives the same logger, and changes nothing. After atexit_handler, which deletes the logger,
  -- a call uses the dangling pointer.
  pub get_instance_once :
      (a b c : ℕ) (o o' o'' : OutputStream S) (p : Program S)
      → p.s_instance ≡ Instance.null
      → (get_instance a o p ≡ some (new_logger a o, installed a o p))
        × (get_instance b o' (installed a o p) ≡ some (new_logger a o, installed a o p))
        × (q : Program S) × (atexit_handler (installed a o p) ≡ some q)
        × (get_instance c o'' q ≡ none)
  unfolding get_instance atexit_handler installed
  get_instance_once a b c o o' o'' p h =
      (rw h refl, refl, record (installed a o p) { s_instance = Instance.deleted }, refl, refl)
