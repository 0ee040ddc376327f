-- ===== src/TunDevice/Descriptor.antt =====
-- src/TunDevice.cpp: who owns the descriptor of the device.
use mqtt_tunnel.Base.{
  ℕ, ◌/◌, ◌%◌, ◌≡◌, ◌↔◌, Bool, true, false, List, [], ◌∷◌, if◌then◌else◌, ◌==◌, Option, some, none,
}
use mqtt_tunnel.Base.Text.{Str}
use mqtt_tunnel.Base.Int.{ℤ, pos, negsuc}
use mqtt_tunnel.TunDevice.{
  is_minus_one, TunDevice, Kernel, KernelCall, opened, tun_set_iff, flags_set, closed, o_nonblock,
  create, destroy,
}

abbrev is_fd : ℤ → ℕ → Bool
is_fd (pos n) m = n == m
is_fd (negsuc n) m = false

-- Whether the descriptor is open after the calls, where `before` says whether it was open before.
abbrev pub open_after : List KernelCall → ℕ → Bool → Bool
open_after [] n before = before
open_after (opened fd ∷ calls) n before = open_after calls n (if is_fd fd n then true else before)
open_after (closed fd ∷ calls) n before = open_after calls n (if is_fd fd n then false else before)
open_after (tun_set_iff fd name flags ∷ calls) n before = open_after calls n before
open_after (flags_set fd flags ∷ calls) n before = open_after calls n before

-- The flag O_NONBLOCK is set in the number.
abbrev pub IsNonblocking : ℤ → Type 0
IsNonblocking (pos n) = n / o_nonblock % 2 ≡ 1
IsNonblocking (negsuc n) = n / o_nonblock % 2 ≡ 0

-- The flags that were last set on the descriptor.
abbrev pub flags_after : List KernelCall → ℕ → Option ℤ → Option ℤ
flags_after [] n before = before
flags_after (flags_set fd flags ∷ calls) n before =
    flags_after calls n (if is_fd fd n then some flags else before)
flags_after (opened fd ∷ calls) n before = flags_after calls n before
flags_after (closed fd ∷ calls) n before = flags_after calls n before
flags_after (tun_set_iff fd name flags ∷ calls) n before = flags_after calls n before

-- Constructor and destructor on a kernel, with nothing open before.
abbrev pub built : Kernel → Str → TunDevice
built kernel name = (create kernel name []).0

abbrev pub build_calls : Kernel → Str → List KernelCall
build_calls kernel name = (create kernel name []).1

pub record Owns (kernel : Kernel) (name : Str) : Type 0 where
  pub has_own :
      (n : ℕ)
      → ((built kernel name).tun_fd ≡ pos n) ↔ (open_after (build_calls kernel name) n false ≡ true)
  pub has_none :
      (n : ℕ) → open_after (destroy (built kernel name) (build_calls kernel name)) n false ≡ false
  pub nonblocking :
      (n : ℕ)
      → (built kernel name).tun_fd ≡ pos n
      → is_minus_one (kernel.get_flags (pos n)) ≡ false
      → (f : ℤ) × (flags_after (build_calls kernel name) n none ≡ some f) × IsNonblocking f
