-- ===== src/Sender/Package.antt =====
-- sender_proc/forward_stack.hpp and include/packet.hpp: the entries of the sender's stacks.
use worker_unit.Base.{ℕ, Bool, true, false, ◌||◌, []}
use worker_unit.Base.Text.{Bytes}

-- `enum SenderDataType`
pub data SenderDataType : Type 0 where
  recv_err reset_timer dat_err dat_recvd intr_send fres_send seize dat_null : SenderDataType

pub record ForwardStackPackage : Type 0 where
  pub status_code : SenderDataType
  pub priority : ℕ
  pub table_id : Bytes
  pub body : Bytes

-- DEFAULT_PRIORITY is 3.
unfoldable pub empty_package : ForwardStackPackage
empty_package = record { status_code = dat_null; priority = 3; table_id = []; body = [] }

abbrev pub is_intr : SenderDataType → Bool
is_intr intr_send = true
is_intr _ = false

abbrev pub is_fres : SenderDataType → Bool
is_fres fres_send = true
is_fres _ = false

-- `statusCode == INTR_SEND || statusCode == FRES_SEND`
abbrev pub is_ackable : ForwardStackPackage → Bool
is_ackable p = is_intr p.status_code || is_fres p.status_code

-- A wait on a semaphore that is held, by a thread that holds it itself, never returns (`blocked`);
-- `undefined` is an access outside an array or through a null pointer.
pub data Outcome {ℓ} (A : Type ℓ) : Type ℓ where
  done : A → Outcome A
  blocked : Outcome A
  undefined : Outcome A

infixl 5 ◌>>=◌
abbrev pub ◌>>=◌ {ℓ κ} : {A : Type ℓ} {B : Type κ} → Outcome A → (A → Outcome B) → Outcome B
done a >>= f = f a
blocked >>= f = blocked
undefined >>= f = undefined
