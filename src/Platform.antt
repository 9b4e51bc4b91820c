-- ===== src/Platform.antt =====
-- What TwoSocks/microsocks asks of the C library's pure calls: address families, `errno` values,
-- and `inet_ntop` with `inet_pton`, which stay abstract.
use two_socks.Prelude.{ℕ, ◌<◌, ◌≡◌, List, Option, some, length, All}
use two_socks.Text.{IsNonzero}

-- `sa_family_t`: AF_INET, AF_INET6 and any other.
pub data Family : Type 0 where
  inet inet6 other_family : Family

-- The `errno` values that the code tells apart.
pub data Errno : Type 0 where
  etimedout eprototype eprotonosupport eafnosupport econnrefused : Errno
  enetdown enetunreach ehostunreach ebadf eintr eagain enotconn : Errno
  other_errno : ℕ → Errno

-- The bytes of an address: 4 of `struct in_addr`, 16 of `struct in6_addr`.
abbrev pub addr_size : Family → ℕ
addr_size inet = 4
addr_size inet6 = 16
addr_size other_family = 16

-- `inet_ntop` with a buffer that is large enough for every address, and `inet_pton`.
-- A printed address is shorter than INET6_ADDRSTRLEN, and reads back as the bytes it stands for.
pub record Inet : Type 0 where
  pub ntop : Family → List ℕ → Option (List ℕ)
  pub pton : Family → List ℕ → Option (List ℕ)
  pub ntop-short :
      (af : Family) (bs s : List ℕ) → length bs ≡ addr_size af → ntop af bs ≡ some s → length s < 46
  pub ntop-nonzero :
      (af : Family) (bs s : List ℕ)
      → length bs ≡ addr_size af
      → ntop af bs ≡ some s
      → All IsNonzero s
  pub pton-ntop :
      (af : Family) (bs s : List ℕ)
      → length bs ≡ addr_size af
      → ntop af bs ≡ some s
      → pton af s ≡ some bs
