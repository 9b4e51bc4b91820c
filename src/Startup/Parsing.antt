-- ===== src/Startup/Parsing.antt =====
-- The loop over the options stores what the last option of a kind says, and wipes the names and
-- passwords.
use two_socks.Prelude.{ℕ, ◌≡◌, refl, ◌∙◌, Bool, true, List, [], ◌∷◌, Option, none, some, All}
use two_socks.SockAddr.{SockAddr}
use two_socks.Sblist.{Sblist}
use two_socks.Startup.{
  Opt, opt_once, opt_quiet, opt_user, opt_pass, opt_ip, opt_port, opt_missing, opt_unknown, CLib,
  Options, wipe, zero_arg, take_option, parse_options,
}

-- The last value that an option has, or the one before all options.
abbrev pub last_of : {A : Type 0} → (Opt → Option A) → List Opt → A → A
last_of f [] a = a
last_of f (x ∷ xs) a = elim (f x) [ none ↦ last_of f xs a | some b ↦ last_of f xs b ]

-- No mistake.
abbrev pub IsOption : Opt → Type 0
IsOption opt_missing = ⊥
IsOption opt_unknown = ⊥
IsOption _ = Unit

module _ {L : Type 0} (lib : Sblist SockAddr L) (c : CLib) where
  abbrev pub user_of : Opt → Option (Option (List ℕ))
  user_of (opt_user s) = some (c.strdup s)
  user_of _ = none

  abbrev pub pass_of : Opt → Option (Option (List ℕ))
  pass_of (opt_pass s) = some (c.strdup s)
  pass_of _ = none

  abbrev pub ips_of : Opt → Option (Option L)
  ips_of opt_once = some lib.create
  ips_of _ = none

  abbrev pub quiet_of : Opt → Option Bool
  quiet_of opt_quiet = some true
  quiet_of _ = none

  abbrev pub listenip_of : Opt → Option (List ℕ)
  listenip_of (opt_ip s) = some s
  listenip_of _ = none

  abbrev pub port_of : Opt → Option ℕ
  port_of (opt_port s) = some (c.atoi s)
  port_of _ = none

  -- The options as the last ones of their kinds say.
  abbrev pub as_said : List Opt → Options L → Options L
  as_said xs o = record {
    auth_user = last_of user_of xs o.auth_user;
    auth_pass = last_of pass_of xs o.auth_pass;
    auth_ips = last_of ips_of xs o.auth_ips;
    quiet = last_of quiet_of xs o.quiet;
    listenip = last_of listenip_of xs o.listenip;
    port = last_of port_of xs o.port;
  }

  abbrev IsZero : ℕ → Type 0
  IsZero b = b ≡ 0

  -- The option has no byte of a name or a password.
  abbrev pub IsWiped : Opt → Type 0
  IsWiped (opt_user s) = All IsZero s
  IsWiped (opt_pass s) = All IsZero s
  IsWiped _ = Unit

  zero_arg-IsZero : (s : List ℕ) → All IsZero (zero_arg s)
  unfolding zero_arg
  zero_arg-IsZero [] = tt
  zero_arg-IsZero (b ∷ s) = (refl, zero_arg-IsZero s)

  abbrev pub IsParsed : List Opt → Options L → Option (Options L) × List Opt → Type 0
  IsParsed xs o (some o', ys) = All IsOption xs × (o' ≡ as_said xs o) × All IsWiped ys
  IsParsed xs o (none, ys) = All IsOption xs → ⊥

  further :
      (x : Opt) (xs : List Opt) (o o1 : Options L) (r : Option (Options L)) (ys : List Opt)
      → IsOption x
      → IsWiped (wipe x)
      → as_said xs o1 ≡ as_said (x ∷ xs) o
      → IsParsed xs o1 (r, ys)
      → IsParsed (x ∷ xs) o (r, wipe x ∷ ys)
  further x xs o o1 none ys k w e h = λ all. h all.1
  further x xs o o1 (some o') ys k w e (all, same, wiped) = ((k, all), same ∙ e, (w, wiped))

  -- If no option is mistaken, the options are accepted, each is stored as the last one of its kind
  -- says, and is as before where there is none, and what is left of every name and password in the
  -- arguments is zeros; if one is mistaken, the options are not accepted.
  pub parse_options-IsParsed :
      (xs : List Opt) (o : Options L) → IsParsed xs o (parse_options lib c xs o)
  unfolding parse_options take_option
  parse_options-IsParsed [] o = (tt, refl, tt)
  parse_options-IsParsed (opt_once ∷ xs) o =
      further opt_once xs o _ _ _ tt tt refl (parse_options-IsParsed xs _)
  parse_options-IsParsed (opt_quiet ∷ xs) o =
      further opt_quiet xs o _ _ _ tt tt refl (parse_options-IsParsed xs _)
  parse_options-IsParsed (opt_user s ∷ xs) o =
      further (opt_user s) xs o _ _ _ tt (zero_arg-IsZero s) refl (parse_options-IsParsed xs _)
  parse_options-IsParsed (opt_pass s ∷ xs) o =
      further (opt_pass s) xs o _ _ _ tt (zero_arg-IsZero s) refl (parse_options-IsParsed xs _)
  parse_options-IsParsed (opt_ip s ∷ xs) o =
      further (opt_ip s) xs o _ _ _ tt tt refl (parse_options-IsParsed xs _)
  parse_options-IsParsed (opt_port s ∷ xs) o =
      further (opt_port s) xs o _ _ _ tt tt refl (parse_options-IsParsed xs _)
  parse_options-IsParsed (opt_missing ∷ xs) o = λ all. all.0
  parse_options-IsParsed (opt_unknown ∷ xs) o = λ all. all.0
