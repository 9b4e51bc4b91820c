-- ===== src/Startup.antt =====
-- TwoSocks/microsocks/sockssrv.c, `socks_main`: the options, and the start of the server.
pub mod Parsing
pub mod Serving
pub mod Guarded
use two_socks.Prelude.{
  ◌≡◌, ℕ, zero, suc, ◌%◌, ◌^◌, Bool, true, false, not, ◌&&◌, ◌||◌, List, [], ◌∷◌, Option, none,
  some, if◌then◌else◌,
}
use two_socks.SockAddr.{SockAddr}
use two_socks.Sblist.{Sblist}
use two_socks.Os.{Os}
use two_socks.System.{Sys, emit_server_ready_event}
use two_socks.Auth.{Credentials}
use two_socks.Session.{Config}
use two_socks.Server.{Client, Setup, listening, unresolved, unbound, unlistened, server_setup}
use two_socks.Pool.{ThreadOs, Pool, accept_rounds}

-- What `getopt` returns, an option after the other, with the bytes of its argument in `argv`. The
-- last two are `:` for a missing argument and `?` for an option that is none.
pub data Opt : Type 0 where
  opt_once opt_quiet : Opt
  opt_user opt_pass opt_ip opt_port : List ℕ → Opt
  opt_missing opt_unknown : Opt

-- `strdup`, which fails when memory is exhausted, and `atoi` as the unsigned number that is stored.
pub record CLib : Type 0 where
  pub strdup : List ℕ → Option (List ℕ)
  pub atoi : List ℕ → ℕ
  pub strdup_copy : (s t : List ℕ) → strdup s ≡ some t → t ≡ s

-- `auth_user`, `auth_pass`, `auth_ips` and `quiet`, and the locals of `socks_main`.
pub record Options (L : Type 0) : Type 0 where
  pub auth_user : Option (List ℕ)
  pub auth_pass : Option (List ℕ)
  pub auth_ips : Option L
  pub quiet : Bool
  pub listenip : List ℕ
  pub port : ℕ

-- "0.0.0.0"
abbrev pub any_address : List ℕ
any_address = b'0' ∷ b'.' ∷ b'0' ∷ b'.' ∷ b'0' ∷ b'.' ∷ b'0' ∷ []

unfoldable pub zero_arg : List ℕ → List ℕ
zero_arg [] = []
zero_arg (b ∷ s) = 0 ∷ zero_arg s

-- What is left of an option in `argv`.
abbrev pub wipe : Opt → Opt
wipe (opt_user s) = opt_user (zero_arg s)
wipe (opt_pass s) = opt_pass (zero_arg s)
wipe o = o

abbrev pub is_set : {A : Type 0} → Option A → Bool
is_set none = false
is_set (some a) = true

module _ {L : Type 0} (lib : Sblist SockAddr L) (c : CLib) where
  -- The `switch`; `none` is `return usage()`.
  unfoldable pub take_option : Opt → Options L → Option (Options L)
  take_option opt_once o = some (record o { auth_ips = lib.create })
  take_option opt_quiet o = some (record o { quiet = true })
  take_option (opt_user s) o = some (record o { auth_user = c.strdup s })
  take_option (opt_pass s) o = some (record o { auth_pass = c.strdup s })
  take_option (opt_ip s) o = some (record o { listenip = s })
  take_option (opt_port s) o = some (record o { port = c.atoi s })
  take_option opt_missing o = none
  take_option opt_unknown o = none

  -- The options, and `argv` as it is left.
  unfoldable pub parse_options : List Opt → Options L → Option (Options L) × List Opt
  parse_options [] o = (some o, [])
  parse_options (x ∷ xs) o = elim (take_option x o) [
    | none ↦ (none, x ∷ xs)
    | some o' ↦ let (r, ys) = parse_options xs o' in (r, wipe x ∷ ys)
  ]

  -- What `socks_main` starts from: the process may have called it before.
  unfoldable pub initial_options : Options L → Options L
  initial_options before = record before { quiet = false; listenip = any_address; port = 1080 }

-- The name and the password as the threads find them in `auth_user` and `auth_pass`.
unfoldable pub credentials : {L : Type 0} → Options L → Option Credentials
credentials o = elim o.auth_user [
  | none ↦ none
  | some user ↦ elim o.auth_pass [
    | none ↦ none
    | some pass ↦ some (record { user = user; pass = pass })
  ]
]

-- The two checks behind the loop over the options.
unfoldable pub is_misused : {L : Type 0} → Options L → Bool
is_misused o =
    ((is_set o.auth_user && not (is_set o.auth_pass))
      || (not (is_set o.auth_user) && is_set o.auth_pass))
    || (is_set o.auth_ips && not (is_set o.auth_pass))

-- How `socks_main` stands. The first three are its returns; `no_list` is the loop without the list
-- of threads, when there was no memory for it.
pub data Main (W T L : Type 0) : Type 0 where
  shows_usage : Main W T L
  misused : Main W T L
  not_set_up : Setup → Sys W → Main W T L
  no_list : Options L → ℕ → Sys W → Main W T L
  serves : Options L → ℕ → Pool W T → Main W T L

module _ {W T L : Type 0} (os : Os W) (ths : ThreadOs W) (lib : Sblist ℕ T)
    (clients : Sblist SockAddr L) (c : CLib) where
  unfoldable pub serve : ℕ → Options L → Setup × Sys W → Main W T L
  serve k o (listening fd, s) = elim lib.create [
    | none ↦ no_list o fd (emit_server_ready_event s)
    | some threads ↦ serves o fd (
        accept_rounds os ths lib k fd
          (record { sys = emit_server_ready_event s; threads = threads; deeds = [] }))
  ]
  serve k o (unresolved, s) = not_set_up unresolved s
  serve k o (unbound, s) = not_set_up unbound s
  serve k o (unlistened, s) = not_set_up unlistened s

  -- `port` is passed on as an `unsigned short`.
  unfoldable pub start_server : ℕ → Options L → Sys W → Main W T L
  start_server k o s =
      if is_misused o then misused else serve k o (server_setup os o.listenip (o.port % 2 ^ 16) s)

  -- For a number of passes of the loop that accepts clients.
  unfoldable pub socks_main : ℕ → List Opt → Options L → Sys W → Main W T L
  socks_main k opts before s =
      elim (parse_options clients c opts (initial_options clients c before)).0 [
        | none ↦ shows_usage
        | some o ↦ start_server k o s
      ]
