-- ===== src/Tests/Fixtures.antt =====
-- A concrete system, address printer and list to run the code on.
use two_socks.Prelude.{
  some_inj, ℕ, zero, suc, ◌+◌, ◌-◌, ◌*◌, ◌/◌, ◌%◌, ◌≤◌, ◌<◌, ◌≡◌, refl, true, false, List, [], ◌∷◌,
  ◌++◌, some, arith, length, take, All, get_elem?, erase_idx, find_idx?,
}
use two_socks.Destinations.{Dest}
use two_socks.Session.{Lists}
use two_socks.Text.{IsByte, IsNonzero}
use two_socks.Platform.{Family, inet, inet6, other_family, addr_size, Inet}
use two_socks.SockAddr.{SockAddr, v4}
use two_socks.Sblist.{Sblist}
use two_socks.Os.{Os, Received, got, taken, Poll, ready, Revents, value, Answer}
use two_socks.System.{Sys}

pub taken_inj : {m n : ℕ} → taken m ≡ taken n → m ≡ n
taken_inj e = cc

-- Each byte is printed as two characters, its digits to the base 16 plus one.
abbrev pub print_bytes : List ℕ → List ℕ
print_bytes [] = []
print_bytes (b ∷ bs) = (b / 16 + 1) ∷ (b % 16 + 1) ∷ print_bytes bs

abbrev pub read_bytes : List ℕ → List ℕ
read_bytes [] = []
read_bytes (x ∷ []) = []
read_bytes (x ∷ y ∷ cs) = ((x - 1) * 16 + (y - 1)) ∷ read_bytes cs

length-print_bytes : (bs : List ℕ) → length (print_bytes bs) ≡ 2 * length bs
length-print_bytes [] = refl
length-print_bytes (b ∷ bs) = omega (arith, length-print_bytes bs)

pub print_bytes-IsNonzero : (bs : List ℕ) → All IsNonzero (print_bytes bs)
print_bytes-IsNonzero [] = tt
print_bytes-IsNonzero (b ∷ bs) = (λ e. omega arith, (λ e. omega arith, print_bytes-IsNonzero bs))

pub read-print : (bs : List ℕ) → read_bytes (print_bytes bs) ≡ bs
read-print [] = refl
read-print (b ∷ bs) =
    let digits : (b / 16 + 1 - 1) * 16 + (b % 16 + 1 - 1) ≡ b = omega arith in
    rw (digits, read-print bs) refl

pub short_enough :
    (af : Family) (bs : List ℕ) → length bs ≡ addr_size af → length (print_bytes bs) < 46
short_enough inet bs e = omega (arith, length-print_bytes bs)
short_enough inet6 bs e = omega (arith, length-print_bytes bs)
short_enough other_family bs e = omega (arith, length-print_bytes bs)

abbrev pub digits_inet : Inet
digits_inet = record {
  ntop = λ af bs. some (print_bytes bs);
  pton = λ af s. some (read_bytes s);
  ntop-short = λ af bs s len e. rw (← some_inj e) (short_enough af bs len);
  ntop-nonzero = λ af bs s len e. rw (← some_inj e) (print_bytes-IsNonzero bs);
  pton-ntop = λ af bs s len e. rw (← some_inj e, read-print bs) refl;
}

-- A list that never runs out of memory.
abbrev pub list_sblist : (A : Type 0) → Sblist A (List A)
list_sblist A = record {
  create = some [];
  get_size = λ l. length l;
  get = λ l i. get_elem? l i;
  add = λ l a. some (l ++ a ∷ []);
  delete = λ l i. erase_idx l i;
  find = λ l p. find_idx? p l;
  items = λ l. l;
  items-create = λ l e. rw (← some_inj e) refl;
  get_size_lem = λ l. refl;
  get_lem = λ l i. refl;
  items-add = λ l k a e. rw (← some_inj e) refl;
  items-delete = λ l i. refl;
  find_lem = λ l p. refl;
}

abbrev pub lists : Lists (List SockAddr) (List Dest)
lists = record { clients = list_sblist SockAddr; destinations = list_sblist Dest }

-- The chunks that arrive, in order, whatever the descriptor they are read from.
abbrev pub Script : Type 0
Script = List (List ℕ)

abbrev pub to_bytes : List ℕ → List ℕ
to_bytes [] = []
to_bytes (x ∷ xs) = (x % 256) ∷ to_bytes xs

abbrev next_chunk : Script → ℕ → Received × Script
next_chunk [] n = (got [], [])
next_chunk (chunk ∷ chunks) n = (got (take n (to_bytes chunk)), chunks)

length-take-le : (n : ℕ) (bs : List ℕ) → length (take n bs) ≤ n
length-take-le zero bs = omega arith
length-take-le (suc n) [] = omega arith
length-take-le (suc n) (b ∷ bs) = omega (arith, length-take-le n bs)

take-IsByte : (n : ℕ) (bs : List ℕ) → All IsByte (take n (to_bytes bs))
take-IsByte zero bs = tt
take-IsByte (suc n) [] = tt
take-IsByte (suc n) (b ∷ bs) = (omega arith, take-IsByte n bs)

pub next_chunk-bounded :
    (w : Script) (n : ℕ) (bytes : List ℕ) → (next_chunk w n).0 ≡ got bytes → length bytes ≤ n
next_chunk-bounded [] n bytes e = let same : [] ≡ bytes = cc in rw (← same) (omega arith)
next_chunk-bounded (chunk ∷ chunks) n bytes e =
    let same : take n (to_bytes chunk) ≡ bytes = cc in
    rw (← same) (length-take-le n (to_bytes chunk))

pub next_chunk-IsByte :
    (w : Script) (n : ℕ) (bytes : List ℕ) → (next_chunk w n).0 ≡ got bytes → All IsByte bytes
next_chunk-IsByte [] n bytes e = let same : [] ≡ bytes = cc in rw (← same) tt
next_chunk-IsByte (chunk ∷ chunks) n bytes e =
    let same : take n (to_bytes chunk) ≡ bytes = cc in rw (← same) (take-IsByte n chunk)

-- `5, 1, 2` again and again.
abbrev pub greeting : Script
greeting = (5 ∷ 1 ∷ 2 ∷ []) ∷ []

abbrev pub readable : Revents
readable = record {
  pollin = true;
  pollerr = false;
  pollnval = false;
  pollhup = false;
  pollrdhup = false;
}

abbrev pub quiet : Revents
quiet = record {
  pollin = false;
  pollerr = false;
  pollnval = false;
  pollhup = false;
  pollrdhup = false;
}

abbrev pub loopback : SockAddr
loopback = v4 (127 ∷ 0 ∷ 0 ∷ 1 ∷ []) 1080

pub nothing_received :
    (bytes : List ℕ) (a : SockAddr)
    → ◌≡◌ {A = Answer (List ℕ × SockAddr)} (value ([], loopback)) (value (bytes, a))
    → All IsByte bytes
nothing_received bytes a e = let same : [] ≡ bytes = cc in rw (← same) tt

-- Writes take every byte, a new socket is the descriptor 7, and only the first of the polled
-- descriptors is ever readable.
abbrev pub scripted : Os Script
scripted = record {
  poll = λ w fds n. (ready (readable ∷ quiet ∷ []), w);
  read = λ w fd n. next_chunk w n;
  write = λ w fd bytes. (taken (length bytes), w);
  close = λ w fd. w;
  socket = λ w f t. (value 7, w);
  connect = λ w fd a. (value tt, w);
  bind = λ w fd a. (value tt, w);
  getsockname = λ w fd. (value loopback, w);
  snprintf_u = λ size n. b'8' ∷ b'0' ∷ [];
  rdlock = λ w. true;
  wrlock = λ w. true;
  getaddrinfo = λ w host service t. (some (loopback, []), w);
  getpeername = λ w fd. (value loopback, w);
  recvfrom = λ w fd n. (value ([], loopback), w);
  listen = λ w fd. (value tt, w);
  accept = λ w fd. (value (8, loopback), w);
  setsockopt = λ w fd. w;
  malloc = λ w n. (true, w);
  usleep = λ w n. w;
  read_bounded = λ w fd n bytes e. next_chunk-bounded w n bytes e;
  read_bytes = λ w fd n bytes e. next_chunk-IsByte w n bytes e;
  recvfrom_bytes = λ w fd n bytes a e. nothing_received bytes a e;
  write_bounded = λ w fd bytes m e. omega (arith, taken_inj e);
  write_progress = λ w fd b bytes m e. omega (arith, taken_inj e);
}

-- The same where nothing ever happens on the polled descriptors.
abbrev pub silent : Os Script
silent = record scripted { poll = λ w fds n. (Poll.timeout, w) }

-- The same where every read returns one packet again: `5, 1, 2`.
abbrev pub stubborn : Os Script
stubborn = record scripted {
  read = λ w fd n. ((next_chunk greeting n).0, w);
  read_bounded = λ w fd n bytes e. next_chunk-bounded greeting n bytes e;
  read_bytes = λ w fd n bytes e. next_chunk-IsByte greeting n bytes e;
}

-- The same where only the second of the polled descriptors is ever readable.
abbrev pub talkative : Os Script
talkative = record scripted { poll = λ w fds n. (ready (quiet ∷ readable ∷ []), w) }

abbrev pub start : Script → Sys Script
start chunks = record {
  world = chunks;
  trace = [];
  downloaded = 0;
  uploaded = 0;
  next_identifier = 1;
  handler = true;
  ready_handler = true;
}
