-- ===== src/Os.antt =====
-- The system calls of TwoSocks/microsocks as an interface over an abstract state `W` of the world,
-- which holds the kernel, the peers and every other thread.
use two_socks.Prelude.{ℕ, ◌≤◌, ◌<◌, ◌≡◌, refl, ◌⊎◌, inl, inr, Bool, List, Option, ◌∷◌, length, All}
use two_socks.Text.{IsByte}
use two_socks.Codes.{SocketType}
use two_socks.Platform.{Family, Errno}
use two_socks.SockAddr.{SockAddr}

-- What `read` and `recv` answer; no bytes are the end of the stream.
pub data Received : Type 0 where
  got : List ℕ → Received
  receive_failed : Errno → Received

-- What `write` and `send` answer: the number of bytes taken.
pub data Sent : Type 0 where
  taken : ℕ → Sent
  send_failed : Errno → Sent

-- `revents` of a `struct pollfd`; the last bit is never set where the system has no POLLRDHUP.
pub record Revents : Type 0 where
  pub pollin : Bool
  pub pollerr : Bool
  pub pollnval : Bool
  pub pollhup : Bool
  pub pollrdhup : Bool

-- What `poll` answers.
pub data Poll : Type 0 where
  timeout : Poll
  poll_failed : Errno → Poll
  ready : List Revents → Poll

-- A call that returns a value or fails with an `errno`.
pub data Answer (A : Type 0) : Type 0 where
  value : A → Answer A
  failed : Errno → Answer A

pub record Os (W : Type 0) : Type 0 where
  -- The descriptors, and the timeout in milliseconds.
  pub poll : W → List ℕ → ℕ → Poll × W
  pub read : W → ℕ → ℕ → Received × W
  pub write : W → ℕ → List ℕ → Sent × W
  pub close : W → ℕ → W
  pub socket : W → Family → SocketType → Answer ℕ × W
  pub connect : W → ℕ → SockAddr → Answer (Unit {0}) × W
  pub bind : W → ℕ → SockAddr → Answer (Unit {0}) × W
  pub getsockname : W → ℕ → Answer SockAddr × W
  -- A host (`none` for the null pointer) and a service. An answer is a list of one address at
  -- least, and `none` an error.
  pub getaddrinfo :
      W → Option (List ℕ) → List ℕ → SocketType → Option (SockAddr × List SockAddr) × W
  -- `snprintf` of an unsigned number into a buffer of that many bytes.
  pub snprintf_u : ℕ → ℕ → List ℕ
  -- Whether `pthread_rwlock_rdlock` and `pthread_rwlock_wrlock` get the lock, in a state of the world.
  -- A lock that is given back at once leaves the world as it was.
  pub rdlock : W → Bool
  pub wrlock : W → Bool
  pub getpeername : W → ℕ → Answer SockAddr × W
  pub recvfrom : W → ℕ → ℕ → Answer (List ℕ × SockAddr) × W
  pub listen : W → ℕ → Answer (Unit {0}) × W
  pub accept : W → ℕ → Answer (ℕ × SockAddr) × W
  pub setsockopt : W → ℕ → W
  -- Whether there is memory.
  pub malloc : W → ℕ → Bool × W
  pub usleep : W → ℕ → W
  -- No more is read than was asked for, and what is read are bytes.
  pub read_bounded :
      (w : W) (fd n : ℕ) (bytes : List ℕ) → (read w fd n).0 ≡ got bytes → length bytes ≤ n
  pub read_bytes :
      (w : W) (fd n : ℕ) (bytes : List ℕ) → (read w fd n).0 ≡ got bytes → All IsByte bytes
  pub recvfrom_bytes :
      (w : W) (fd n : ℕ) (bytes : List ℕ) (a : SockAddr)
      → (recvfrom w fd n).0 ≡ value (bytes, a)
      → All IsByte bytes
  -- A blocking `write` of at least one byte takes at least one, and no more than there are.
  pub write_bounded :
      (w : W) (fd : ℕ) (bytes : List ℕ) (m : ℕ) → (write w fd bytes).0 ≡ taken m → m ≤ length bytes
  pub write_progress :
      (w : W) (fd b : ℕ) (bytes : List ℕ) (m : ℕ) → (write w fd (b ∷ bytes)).0 ≡ taken m → 0 < m

-- To split on an answer and keep the equation.
pub Sent-cases : (r : Sent) → ((m : ℕ) × (r ≡ taken m)) ⊎ ((e : Errno) × (r ≡ send_failed e))
Sent-cases (taken m) = inl (m, refl)
Sent-cases (send_failed e) = inr (e, refl)

pub Received-cases :
    (r : Received) → ((bs : List ℕ) × (r ≡ got bs)) ⊎ ((e : Errno) × (r ≡ receive_failed e))
Received-cases (got bs) = inl (bs, refl)
Received-cases (receive_failed e) = inr (e, refl)

pub Poll-cases :
    (r : Poll)
    → (r ≡ timeout) ⊎ (((e : Errno) × (r ≡ poll_failed e)) ⊎ ((rs : List Revents) × (r ≡ ready rs)))
Poll-cases timeout = inl refl
Poll-cases (poll_failed e) = inr (inl (e, refl))
Poll-cases (ready rs) = inr (inr (rs, refl))

pub Answer-cases :
    {A : Type 0} (r : Answer A) → ((a : A) × (r ≡ value a)) ⊎ ((e : Errno) × (r ≡ failed e))
Answer-cases (value a) = inl (a, refl)
Answer-cases (failed e) = inr (e, refl)
