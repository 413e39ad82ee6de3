-- ===== src/Tests/Sockets.antt =====
-- A socket with a request to read.
use greenis.Prelude.{refl, true, false, [], ◌++◌, Returns, arith}
use greenis.Conn.{got}
use greenis.Conn.Ready.{IsReady}
use greenis.Server.{Events, handle_events, handle_ready, poll_args}
use greenis.Server.Args.{IsExact, poll_args-IsExact}
use greenis.Server.Ready.{IsAsked, Round, handle_ready-Round}
use greenis.Tests.Connections.{app, will_run, first_part, second_part, write_one, write_one-IsWrite}
use greenis.Tests.Keys.{one}
use greenis.Tests.Timers.{conn, server, server-IsLive}

abbrev readable : Events
readable = record { readable = true; writable = false; broken = false }

conn-IsReady : IsReady conn
conn-IsReady = record { one = refl; pending = refl }

asked : IsAsked readable conn
asked = record { read = λ e. refl; write = λ e. absurd (ground (arith, e)) }

handle_ready-Round_example :
    Returns
      (Round readable
        (handle_events app readable
          (got (first_part ++ second_part))
          write_one
          one
          (record conn { last_active_ms = 200 }))
        0
        []
        [])
      (handle_ready app readable (got (first_part ++ second_part)) write_one 0 200 one server)
handle_ready-Round_example =
    handle_ready-Round app readable (got (first_part ++ second_part)) write_one 0 200 one server
      conn [] [] write_one-IsWrite server-IsLive refl asked conn-IsReady (λ r. will_run)

poll_args-IsExact_example : IsExact 3 server (poll_args 3 server)
poll_args-IsExact_example = poll_args-IsExact 3 server
