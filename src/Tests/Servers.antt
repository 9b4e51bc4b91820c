-- ===== src/Tests/Servers.antt =====
-- Runs of the start of the server and of the loop that accepts clients.
use two_socks.Prelude.{
  some_inj, ◌≡◌, ◌⊎◌, ℕ, refl, true, List, [], ◌∷◌, some, none, ◌==◌, if◌then◌else◌,
}
use two_socks.Server.{server_setup, listen_on, open_listener, bind_listener, first_listener}
use two_socks.Resolve.{resolve}
use two_socks.Server.Listening.{IsSetUp, server_setup-IsSetUp}
use two_socks.System.Trace.{opens}
use two_socks.Session.{Config, clientthread}
use two_socks.Session.Admission.{Admitted}
use two_socks.Tests.Threads.{packets}
use two_socks.Pool.{ThreadOs, Pool, collect, accept_rounds}
use two_socks.Pool.Collecting.{sweep, IsSwept, collect-IsSwept}
use two_socks.Pool.Invariant.{IsPool, accept_rounds-IsPool}
use two_socks.Startup.{
  any_address, Opt, opt_once, opt_quiet, opt_user, opt_pass, opt_port, CLib, Options, parse_options,
  initial_options, Main, serves, serve, start_server, take_option, is_misused, credentials,
  socks_main,
}
use two_socks.Startup.Parsing.{as_said, IsParsed, parse_options-IsParsed}
use two_socks.Startup.Guarded.{Entitled, socks_main-Entitled}
use two_socks.Startup.Serving.{IsStanding, socks_main-IsStanding}
use two_socks.System.{Sys, emit_server_ready_event}
use two_socks.SockAddr.{SockAddr}
use two_socks.Tests.Fixtures.{Script, digits_inet, loopback, lists, list_sblist, scripted, start}

-- Every `struct thread` is at the address 100, and the ones at 100 and 102 are done.
abbrev threads_os : ThreadOs Script
threads_os = record {
  malloc_thread = λ w. (some 100, w);
  free = λ w t. w;
  pthread_create = λ w t c. (true, w);
  pthread_join = λ w t. w;
  is_done = λ w t. if t == 100 then true else t == 102;
}

abbrev three_threads : Pool Script (List ℕ)
three_threads = record { sys = start []; threads = 100 ∷ 101 ∷ 102 ∷ []; deeds = [] }

abbrev no_threads : Pool Script (List ℕ)
no_threads = record { sys = start []; threads = []; deeds = [] }

abbrev lib_c : CLib
lib_c = record {
  strdup = λ s. some s;
  atoi = λ s. 1081;
  strdup_copy = λ s t e. rw (some_inj e) refl;
}

abbrev opts : List Opt
opts =
    opt_quiet
    ∷ opt_user (b'u' ∷ [])
    ∷ opt_pass (b'p' ∷ b'w' ∷ [])
    ∷ opt_port (b'8' ∷ b'0' ∷ [])
    ∷ opt_once
    ∷ []

abbrev nothing_set : Options (List SockAddr)
nothing_set = record {
  auth_user = none;
  auth_pass = none;
  auth_ips = none;
  quiet = true;
  listenip = [];
  port = 0;
}

server_setup-IsSetUp_example :
    IsSetUp scripted (start []) (server_setup scripted (b'0' ∷ []) 1080 (start []))
server_setup-IsSetUp_example = server_setup-IsSetUp scripted (b'0' ∷ []) 1080 (start [])

collect-IsSwept_example :
    IsSwept scripted threads_os
      (list_sblist ℕ)
      []
      three_threads
      (collect scripted threads_os (list_sblist ℕ) three_threads)
      (sweep scripted threads_os (list_sblist ℕ) (100 ∷ 101 ∷ 102 ∷ []) [])
collect-IsSwept_example = collect-IsSwept scripted threads_os (list_sblist ℕ) three_threads

accept_rounds-IsPool_example :
    IsPool scripted threads_os
      (list_sblist ℕ)
      []
      (accept_rounds scripted threads_os (list_sblist ℕ) 4 3 no_threads)
accept_rounds-IsPool_example =
    accept_rounds-IsPool scripted threads_os (list_sblist ℕ) [] 4 3 no_threads
      (record { memory = λ t. refl; running = λ t. refl; sockets = λ fd. refl })

parse_options-IsParsed_example :
    IsParsed
      (list_sblist SockAddr)
      lib_c
      opts
      nothing_set
      (parse_options (list_sblist SockAddr) lib_c opts nothing_set)
parse_options-IsParsed_example =
    parse_options-IsParsed (list_sblist SockAddr) lib_c opts nothing_set

socks_main-IsStanding_example :
    IsStanding scripted threads_os
      (list_sblist ℕ)
      (list_sblist SockAddr)
      lib_c
      opts
      (initial_options (list_sblist SockAddr) lib_c nothing_set)
      (start [])
      (socks_main scripted threads_os
        (list_sblist ℕ)
        (list_sblist SockAddr)
        lib_c
        5
        opts
        nothing_set
        (start []))
socks_main-IsStanding_example =
    socks_main-IsStanding scripted threads_os (list_sblist ℕ) (list_sblist SockAddr) lib_c 5 opts
      nothing_set (start [])

abbrev said : Options (List SockAddr)
said = record {
  auth_user = some (b'u' ∷ []);
  auth_pass = some (b'p' ∷ b'w' ∷ []);
  auth_ips = some [];
  quiet = true;
  listenip = any_address;
  port = 1081;
}

abbrev ready : Sys Script
ready = emit_server_ready_event (server_setup scripted any_address 1081 (start [])).1

abbrev pool : Pool Script (List ℕ)
pool =
    accept_rounds scripted threads_os (list_sblist ℕ) 5 7
      (record { sys = ready; threads = []; deeds = [] })

started :
    ◌≡◌ {A = Main Script (List ℕ) (List SockAddr)}
      (socks_main scripted threads_os
        (list_sblist ℕ)
        (list_sblist SockAddr)
        lib_c
        5
        opts
        nothing_set
        (start []))
      (serves said 7 pool)
unfolding socks_main start_server serve parse_options take_option initial_options is_misused
    server_setup listen_on open_listener bind_listener first_listener resolve
started = refl

-- The thread of a client with the right name and password, on the server that these options start.
abbrev visitor : Config
visitor = record { creds = credentials said; client_fd = 4; client_addr = loopback; rounds = 9 }

socks_main-Entitled_example :
    let (e, ips, s) = clientthread scripted digits_inet lists visitor (some []) (start packets) in
    ((x : ℕ) → opens x s.trace ≡ 0)
    ⊎ Admitted scripted digits_inet lists visitor
        (some [])
        []
        (Entitled scripted digits_inet lists visitor
          (as_said
            (list_sblist SockAddr)
            lib_c
            opts
            (initial_options (list_sblist SockAddr) lib_c nothing_set))
          (some [])
          [])
        e
        s
socks_main-Entitled_example =
    socks_main-Entitled scripted threads_os (list_sblist ℕ) digits_inet lists lib_c 5 opts
      nothing_set said (start []) 7 pool started visitor refl (some []) (start packets)
