-- ===== src/Socket.antt =====
-- socket/socket.cpp: the flags of the socket thread, as one status word.
use Prim.Native.Nat.{bit_and, bit_or}
use worker_unit.Base.{ℕ, ◌≡◌, Bool, true, false, not, ◌&&◌, ◌||◌, arith, ◌==◌}

-- `enum SocketStatus`
pub data SocketStatus : Type 0 where
  soc_default soc_seize soc_setqs soc_normal_mode soc_quicksend_mode : SocketStatus

abbrev pub status_mask : SocketStatus → ℕ
status_mask soc_default = 1
status_mask soc_seize = 2
status_mask soc_setqs = 4
status_mask soc_normal_mode = 8
status_mask soc_quicksend_mode = 16

pub record Socket : Type 0 where
  pub quick_send_mode : Bool
  pub seize_mode : Bool
  pub in_qs_mode : Bool
  pub ws_lock : Bool
  pub socket_should_stop : Bool

unfoldable pub new_socket : Socket
new_socket = record {
  quick_send_mode = false;
  seize_mode = false;
  in_qs_mode = false;
  ws_lock = false;
  socket_should_stop = false;
}

-- `if(flag) status |= mask;`
abbrev or_if : Bool → SocketStatus → ℕ → ℕ
or_if true s status = bit_or status (status_mask s)
or_if false s status = status

unfoldable pub get_socket_status : Socket → ℕ
get_socket_status s = or_if s.in_qs_mode soc_quicksend_mode (
    or_if s.ws_lock soc_normal_mode
      (or_if s.quick_send_mode soc_setqs (or_if s.seize_mode soc_seize 1)))

unfoldable pub set_flag : SocketStatus → Socket → Socket
set_flag soc_seize s = record s { seize_mode = true }
set_flag soc_setqs s = record s { quick_send_mode = true }
set_flag soc_normal_mode s = record s { ws_lock = true }
set_flag soc_quicksend_mode s = record s { in_qs_mode = true }
set_flag soc_default s = s

unfoldable pub reset_flag : SocketStatus → Socket → Socket
reset_flag soc_seize s = record s { seize_mode = false }
reset_flag soc_setqs s = record s { quick_send_mode = false }
reset_flag soc_normal_mode s = record s { ws_lock = false }
reset_flag soc_quicksend_mode s = record s { in_qs_mode = false }
reset_flag soc_default s = s

-- `status & mask` as a condition.
abbrev pub has_bit : ℕ → SocketStatus → Bool
has_bit status m = not (bit_and status (status_mask m) == 0)

abbrev pub same_status : SocketStatus → SocketStatus → Bool
same_status a b = status_mask a == status_mask b

-- The flag that a status stands for; the default bit is always set.
abbrev pub flag_of : SocketStatus → Socket → Bool
flag_of soc_default s = true
flag_of soc_seize s = s.seize_mode
flag_of soc_setqs s = s.quick_send_mode
flag_of soc_normal_mode s = s.ws_lock
flag_of soc_quicksend_mode s = s.in_qs_mode

-- The status word shows each flag at its bit.
pub get_socket_status-has_bit :
    (m : SocketStatus) (s : Socket) → has_bit (get_socket_status s) m ≡ flag_of m s
unfolding get_socket_status
get_socket_status-has_bit soc_default s = ground arith
get_socket_status-has_bit soc_seize s = ground arith
get_socket_status-has_bit soc_setqs s = ground arith
get_socket_status-has_bit soc_normal_mode s = ground arith
get_socket_status-has_bit soc_quicksend_mode s = ground arith

set_flag-flag_of :
    (f m : SocketStatus) (s : Socket) → flag_of m (set_flag f s) ≡ (same_status f m || flag_of m s)
unfolding set_flag
set_flag-flag_of soc_default m s = ground arith
set_flag-flag_of soc_seize m s = ground arith
set_flag-flag_of soc_setqs m s = ground arith
set_flag-flag_of soc_normal_mode m s = ground arith
set_flag-flag_of soc_quicksend_mode m s = ground arith

reset_flag-flag_of :
    (f m : SocketStatus) (s : Socket)
    → flag_of m (reset_flag f s)
      ≡ (flag_of m s && not (same_status f m && not (same_status m soc_default)))
unfolding reset_flag
reset_flag-flag_of soc_default m s = ground arith
reset_flag-flag_of soc_seize m s = ground arith
reset_flag-flag_of soc_setqs m s = ground arith
reset_flag-flag_of soc_normal_mode m s = ground arith
reset_flag-flag_of soc_quicksend_mode m s = ground arith

-- After `setFlag` the word of `getSocketStatus` has the named bit and the bits it had; after
-- `resetFlag` it has the bits it had but the named one. The default bit cannot be reset.
pub get_socket_status-flags :
    (f m : SocketStatus) (s : Socket)
    → (has_bit (get_socket_status (set_flag f s)) m
        ≡ (same_status f m || has_bit (get_socket_status s) m))
      × (has_bit (get_socket_status (reset_flag f s)) m ≡ (
          has_bit (get_socket_status s) m
          && not (same_status f m && not (same_status m soc_default))))
get_socket_status-flags f m s = (
  rw (get_socket_status-has_bit m (set_flag f s), get_socket_status-has_bit m s)
      (set_flag-flag_of f m s),
  rw (get_socket_status-has_bit m (reset_flag f s), get_socket_status-has_bit m s)
      (reset_flag-flag_of f m s),
)
