-- ===== src/Stomp/Connection/Destroy.antt =====
-- ~output_stream_stomp: its members go with it, and std::thread ends the program if m_connect_thread
-- has not been joined.
use epics_logfile.Base.{Bool, false, Option, none, some, if◌then◌else◌}
use epics_logfile.Base.Map.{bytes_key}
use epics_logfile.Stomp.Reply.{Reply}
use epics_logfile.Stomp.Connection.{Connection}

-- The destructor; `none` is std::terminate.
unfoldable pub destroy : Connection → Option (Unit {0})
destroy c = if c.joinable then none else some tt

abbrev join_or_wait : Connection → Option (Bool × Connection)
join_or_wait c =
    if c.m_connect_thread_done
    then some (c.m_connected, record c { m_connecting = false; joinable = false })
    else some (false, c)
