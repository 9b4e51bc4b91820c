-- ===== src/Association/Slots.antt =====
-- The way from the destinations to the client follows the abstract machine; the loop over the slots
-- ends, and reads nothing out of bounds.
use two_socks.Prelude.{
  ap, ℕ, zero, suc, ◌+◌, ◌-◌, ◌<◌, ◌≤◌, ◌≡◌, refl, ◌∙◌, sym, true, List, [], ◌∷◌, ◌++◌, ◌||◌, some,
  arith, inl, inr, get_elem?, length, take, Bool-cases, Option-cases, ◌==◌, ==_iff,
}
use two_socks.Codes.{ErrorCode, general_failure}
use two_socks.Platform.{Inet}
use two_socks.Errors.{socket_error_code_from_errno}
use two_socks.Datagram.{udp_header}
use two_socks.Sblist.{Sblist}
use two_socks.Os.{Os, Received-cases, Sent-cases}
use two_socks.System.{Sys, received, sent, moved, note, record_downloaded_bytes}
use two_socks.Relay.{poll_revents_have_error, poll_revents_have_hangup}
use two_socks.Destinations.{Dest, Pollfd, Assoc, is_polled, compare_fd_socks5addr_by_fd}
use two_socks.Destinations.Search.{find_idx?-some}
use two_socks.Destinations.Removal.{is_polled-get, close_udp_destination-Closed}
use two_socks.Association.Spec.{View, view, Run, next, transfer, moved-Run}
use two_socks.Forward.{udp_copy_buffer_size}
use two_socks.Forward.Sound.{IsSound}
use two_socks.Association.{
  Slot, next_slot, same_slot, turn, drop_destination, to_client, receive_destination,
  read_destination, visit_found, visit, scan,
}

-- The same slot is looked at again only if there is one less.
abbrev pub IsVisited :
    {W L : Type 0} → Inet → ℕ → Sblist Dest L → View → Assoc L → Slot × Assoc L × Sys W → Type 0
IsVisited net client lib x0 a0 (next_slot, a, s) =
    Run net client x0 (view lib a s) × (length a.live ≡ length a0.live)
IsVisited net client lib x0 a0 (same_slot, a, s) =
    Run net client x0 (view lib a s) × (suc (length a.live) ≡ length a0.live)
IsVisited net client lib x0 a0 (turn t, a, s) = IsSound net client lib x0 (t, a, s)

view-record_downloaded_bytes :
    {W L : Type 0} (lib : Sblist Dest L) (n : ℕ) (a : Assoc L) (s : Sys W)
    → view lib a (record_downloaded_bytes n s) ≡ view lib a s
unfolding record_downloaded_bytes
view-record_downloaded_bytes lib n a s = elim (Bool-cases (n == 0)) [
  | inl e ↦ rw (e, record_downloaded_bytes) refl
  | inr e ↦ rw (e, record_downloaded_bytes) refl
]

module _ {W L : Type 0} (os : Os W) (net : Inet) (lib : Sblist Dest L) (client : ℕ)
    (x0 : View) where
  module _ (i : ℕ) (d : Dest) (a : Assoc L) (at_i : get_elem? (lib.items a.dests) i ≡ some d)
      (slot : is_polled d.fd a.live ≡ true) where
    drop_destination-IsVisited :
        (code : ErrorCode) (s : Sys W)
        → Run net client x0 (view lib a s)
        → IsVisited net client lib x0 a (drop_destination os net lib i code a s)
    unfolding drop_destination
    drop_destination-IsVisited code s r =
        let c = close_udp_destination-Closed os lib i d code a s at_i in
        rw (c.result, drop_destination) (next r (c.step net client), c.shorter slot)

    to_client-IsVisited :
        (fd : ℕ) (header payload : List ℕ) (s : Sys W)
        → fd ≡ d.fd
        → udp_header net d.addrport ≡ some header
        → Run net client x0 (view lib a (note (received fd payload) s))
        → IsVisited net client lib x0 a
            (to_client os net lib client fd i header payload a (note (received fd payload) s))
    unfolding to_client
    to_client-IsVisited fd header payload s own written r =
        elim (Sent-cases (os.write s.world client (header ++ payload)).0) [
          | inr (x, e) ↦ rw (e, to_client) (tt, r)
          | inl (m, e) ↦
              rw (e, to_client)
                (
                  moved-Run
                      (next r (
                        transfer (sent client (take m (header ++ payload))) tt
                          (inr (record {
                            payload = payload;
                            prefix = header;
                            taken = m;
                            i = i;
                            d = d;
                            before = s.trace;
                            at_i = at_i;
                            header = written;
                            newest = ap (λ f. received f payload ∷ s.trace) own;
                            to = refl;
                            packet = refl;
                          }))
                          refl))
                      (view-record_downloaded_bytes lib (length payload) a _),
                  refl,
                )
        ]

    receive_destination-IsVisited :
        (fd : ℕ) (header : List ℕ) (s : Sys W)
        → fd ≡ d.fd
        → udp_header net d.addrport ≡ some header
        → Run net client x0 (view lib a s)
        → IsVisited net client lib x0 a (receive_destination os net lib client fd i header a s)
    unfolding receive_destination
    receive_destination-IsVisited fd header s own written r =
        elim (Received-cases (os.read s.world fd (udp_copy_buffer_size - length header)).0) [
          | inr (x, e) ↦
              rw (e, receive_destination)
                (drop_destination-IsVisited (socket_error_code_from_errno x)
                  (moved (os.read s.world fd (udp_copy_buffer_size - length header)).1 s) r)
          | inl (payload, e) ↦
              rw (e, receive_destination)
                (to_client-IsVisited fd header payload
                  (moved (os.read s.world fd (udp_copy_buffer_size - length header)).1 s) own
                  written (next r (transfer (received fd payload) tt tt refl)))
        ]

    read_destination-IsVisited :
        (fd : ℕ) (s : Sys W)
        → fd ≡ d.fd
        → Run net client x0 (view lib a s)
        → IsVisited net client lib x0 a (read_destination os net lib client fd i a s)
    unfolding read_destination
    read_destination-IsVisited fd s own r = elim (Option-cases (udp_header net d.addrport)) [
      | inl e ↦
          rw (lib.get_lem a.dests i ∙ at_i, e, read_destination)
            (drop_destination-IsVisited general_failure s r)
      | inr (header, e) ↦
          rw (lib.get_lem a.dests i ∙ at_i, e, read_destination)
            (receive_destination-IsVisited fd header s own e r)
    ]

    visit_found-IsVisited :
        (p : Pollfd) (s : Sys W)
        → p.fd ≡ d.fd
        → Run net client x0 (view lib a s)
        → IsVisited net client lib x0 a (visit_found os net lib client p i a s)
    unfolding visit_found
    visit_found-IsVisited p s own r =
        elim (Bool-cases
          (poll_revents_have_error p.revents || poll_revents_have_hangup p.revents)) [
            | inl bad ↦ rw (bad, visit_found) (drop_destination-IsVisited general_failure s r)
            | inr good ↦ elim (Bool-cases p.revents.pollin) [
              | inl readable ↦
                  rw (good, visit_found, readable) (read_destination-IsVisited p.fd s own r)
              | inr idle ↦ rw (good, visit_found, idle) (r, refl)
            ]
          ]

  pub visit-IsVisited :
      (j : ℕ) (p : Pollfd) (a : Assoc L) (s : Sys W)
      → get_elem? a.live j ≡ some p
      → Run net client x0 (view lib a s)
      → IsVisited net client lib x0 a (visit os net lib client p a s)
  unfolding visit
  visit-IsVisited j p a s at_j r =
      elim (Option-cases (lib.find a.dests (compare_fd_socks5addr_by_fd p.fd))) [
        | inl e ↦ rw (e, visit) (tt, r)
        | inr (i, e) ↦
            let (d, at_i, same) =
              find_idx?-some _ (lib.items a.dests) i (sym (lib.find_lem a.dests _) ∙ e) in
            rw (e, visit)
              (visit_found-IsVisited i d a at_i
                (rw (← (==_iff p.fd d.fd).0 same) (is_polled-get a.live j p at_j)) p s
                ((==_iff p.fd d.fd).0 same) r)
      ]

  pub slot-in-range :
      {A : Type 0} (xs : List A) (i : ℕ) (x : A) → get_elem? xs i ≡ some x → i < length xs
  slot-in-range [] i x h = absurd (cc)
  slot-in-range (y ∷ xs) zero x h = omega arith
  slot-in-range (y ∷ xs) (suc i) x h = omega (arith, slot-in-range xs i x h)

  -- As many steps as there are slots left are enough.
  pub scan-IsSound :
      (k i : ℕ) (a : Assoc L) (s : Sys W)
      → length a.live ≤ k + i
      → Run net client x0 (view lib a s)
      → IsSound net client lib x0 (scan os net lib k client i a s)
  unfolding scan
  scan-IsSound zero i a s enough r = elim (Option-cases (get_elem? a.live i)) [
    | inl e ↦ rw (e, scan) r
    | inr (p, e) ↦ absurd (omega (arith, slot-in-range a.live i p e))
  ]
  scan-IsSound (suc k) i a s enough r = elim (Option-cases (get_elem? a.live i)) [
    | inl e ↦ rw (e, scan) r
    | inr (p, e) ↦
        step p e _ refl (visit-IsVisited i p a s e r) (λ i' a' s'. scan-IsSound k i' a' s')
  ]
    where
      step :
          (p : Pollfd)
          → get_elem? a.live i ≡ some p
          → (n : Slot) → (visit os net lib client p a s).0 ≡ n
          → IsVisited net client lib x0 a
              (n, (visit os net lib client p a s).1, (visit os net lib client p a s).2)
          → ((i' : ℕ) (a' : Assoc L) (s' : Sys W)
              → length a'.live ≤ k + i'
              → Run net client x0 (view lib a' s')
              → IsSound net client lib x0 (scan os net lib k client i' a' s'))
          → IsSound net client lib x0 (scan os net lib (suc k) client i a s)
      step p e next_slot f (r', same) ih = rw (e, scan, f) (ih (i + 1) _ _ (omega arith) r')
      step p e same_slot f (r', less) ih = rw (e, scan, f) (ih i _ _ (omega arith) r')
      step p e (turn t) f r' ih = rw (e, scan, f) r'
