-- ===== src/Async/Host.antt =====
-- What the network code asks of the machine and of boost::asio: how a `short` lies in memory, and
-- the two byte-order functions of `boost::asio::detail::socket_ops`.
use c_study.Prelude.{ℕ, ◌+◌, ◌*◌, ◌/◌, ◌%◌, ◌^◌, ◌<◌, ◌≡◌, leb, Bool, arith}

-- A `short` is carried as its bit pattern, a number below 2 ^ 16; 2 ^ 15 and up are negative.
abbrev pub is_negative : ℕ → Bool
is_negative x = leb (2 ^ 15) x

-- `host_to_network_short` stores the most significant byte first, and `network_to_host_short` is
-- what reads such a pair, whatever the machine's own order.
pub record Host : Type 0 where
  pub memory : ℕ → ℕ × ℕ
  pub value : ℕ → ℕ → ℕ
  pub host_to_network_short : ℕ → ℕ
  pub network_to_host_short : ℕ → ℕ
  pub stores_high_first :
      (x : ℕ) → x < 2 ^ 16 → memory (host_to_network_short x) ≡ (x / 256, x % 256)
  pub reads_high_first :
      (a b : ℕ) → a < 256 → b < 256 → network_to_host_short (value a b) ≡ a * 256 + b

abbrev swap : ℕ → ℕ
swap x = x % 256 * 256 + x / 256 % 256

pub swap-low : (x : ℕ) → x < 2 ^ 16 → swap x % 256 ≡ x / 256
swap-low x h = omega arith

pub swap-high : (x : ℕ) → x < 2 ^ 16 → swap x / 256 % 256 ≡ x % 256
swap-high x h = omega arith

pub swap-pair : (a b : ℕ) → a < 256 → b < 256 → swap (b * 256 + a) ≡ a * 256 + b
swap-pair a b h k = omega arith

-- A little-endian machine, where both functions swap the bytes.
abbrev pub little_endian : Host
little_endian = record {
  memory = λ x. (x % 256, x / 256 % 256);
  value = λ a b. b * 256 + a;
  host_to_network_short = swap;
  network_to_host_short = swap;
  stores_high_first = λ x h i. (swap-low x h i, swap-high x h i);
  reads_high_first = swap-pair;
}
