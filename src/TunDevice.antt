-- ===== src/TunDevice.antt =====
-- src/TunDevice.hpp and src/TunDevice.cpp: the wrapper of the kernel's TUN device. The kernel is a
-- parameter; what the object does to it is a log of calls.
pub mod Descriptor
use mqtt_tunnel.Base.{
  ℕ, ◌+◌, ◌-◌, ◌/◌, ◌%◌, Bool, true, false, List, [], ◌∷◌, ◌++◌, if◌then◌else◌, ◌==◌, take, length,
  replicate,
}
use mqtt_tunnel.Base.Text.{Str, empty}
use mqtt_tunnel.Base.Int.{ℤ, pos, negsuc, int_lt}
use mqtt_tunnel.Helpers.{c_string}

-- The results of `open` on /dev/net/tun, of `ioctl` with TUNSETIFF (on a descriptor, with the name and
-- the flags of the request), and of `fcntl` with F_GETFL and F_SETFL.
pub record Kernel : Type 0 where
  pub open_tun : ℤ
  pub tunsetiff : ℤ → Str → ℕ → ℤ
  pub get_flags : ℤ → ℤ
  pub set_flags : ℤ → ℤ → ℤ

pub data KernelCall : Type 0 where
  opened : ℤ → KernelCall
  tun_set_iff : ℤ → Str → ℕ → KernelCall
  flags_set : ℤ → ℤ → KernelCall
  closed : ℤ → KernelCall

pub record TunDevice : Type 0 where
  pub tun_fd : ℤ

-- IFF_TUN | IFF_NO_PI, IFNAMSIZ and O_NONBLOCK of Linux.
abbrev pub iff_tun_no_pi : ℕ
iff_tun_no_pi = 0x1001

abbrev pub ifnamsiz : ℕ
ifnamsiz = 16

abbrev pub o_nonblock : ℕ
o_nonblock = 2048

-- `strncpy` into a field of zeros: at most `n` bytes, and no zero after them where all `n` are used.
abbrev pub strncpy : ℕ → Str → Str
strncpy n s = let bytes = take n (c_string s) in bytes ++ replicate (n - length bytes) 0

unfoldable pub ifr_name : Str → Str
ifr_name device_name =
    if empty device_name then replicate ifnamsiz 0 else strncpy ifnamsiz device_name

-- `flags | O_NONBLOCK`; the bits of `negsuc n` are those of `n` negated.
unfoldable pub or_nonblock : ℤ → ℤ
or_nonblock (pos n) = pos (if n / o_nonblock % 2 == 1 then n else n + o_nonblock)
or_nonblock (negsuc n) = negsuc (if n / o_nonblock % 2 == 1 then n - o_nonblock else n)

abbrev pub is_minus_one : ℤ → Bool
is_minus_one (pos n) = false
is_minus_one (negsuc n) = n == 0

-- The switch to non-blocking mode. Both failures are only logged.
unfoldable pub set_nonblocking : Kernel → ℤ → List KernelCall → List KernelCall
unfolding or_nonblock
set_nonblocking kernel fd calls =
    let flags = kernel.get_flags fd in
    if is_minus_one flags then calls else calls ++ flags_set fd (or_nonblock flags) ∷ []

-- The constructor from the descriptor on.
unfoldable pub attach : Kernel → Str → ℤ → List KernelCall → TunDevice × List KernelCall
unfolding set_nonblocking
attach kernel name fd calls =
    let err = kernel.tunsetiff fd name iff_tun_no_pi in
    let asked = calls ++ tun_set_iff fd name iff_tun_no_pi ∷ [] in
    if int_lt err 0
    then (record { tun_fd = err }, asked ++ closed fd ∷ [])
    else (record { tun_fd = fd }, set_nonblocking kernel fd asked)

-- `TunDevice::TunDevice`
unfoldable pub create : Kernel → Str → List KernelCall → TunDevice × List KernelCall
unfolding attach ifr_name
create kernel device_name calls =
    let fd = kernel.open_tun in
    let tried = calls ++ opened fd ∷ [] in
    if int_lt fd 0
    then (record { tun_fd = fd }, tried)
    else attach kernel (ifr_name device_name) fd tried

-- `TunDevice::~TunDevice`
unfoldable pub destroy : TunDevice → List KernelCall → List KernelCall
destroy device calls = if int_lt device.tun_fd 0 then calls else calls ++ closed device.tun_fd ∷ []
