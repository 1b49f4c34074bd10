-- ===== src/Sender/Sink/Packets.antt =====
-- The packets that the sink makes.
use Prim.Native.Nat.{bit_or, bit_and}
use worker_unit.Base.{ℕ, ◌≡◌, refl, Bool, true, false, not, ◌||◌, arith, ◌==◌, if◌then◌else◌}
use worker_unit.Base.Text.{Bytes}
use worker_unit.Socket.{Socket, soc_seize, get_socket_status-has_bit}
use worker_unit.Sender.Package.{
  SenderDataType, recv_err, reset_timer, dat_err, dat_recvd, intr_send, fres_send, seize, dat_null,
  ForwardStackPackage, is_ackable, is_intr, is_fres,
}
use worker_unit.Sender.ForwardStack
use worker_unit.Sender.Sink.{
  SenderSink, create_packet, get_packet_head, p_seize, p_qsend, p_final_res, p_intr_res,
}

abbrev pub bit : ℕ → ℕ → Bool
bit mask head = not (bit_and head mask == 0)

abbrev pub is_seize : SenderDataType → Bool
is_seize seize = true
is_seize _ = false

never_empty : (f : ForwardStack.ForwardStack) → (ForwardStack.is_empty f == 0) ≡ false
unfolding ForwardStack.is_empty
never_empty f = ground arith

-- What the head of a packet says, by its item's status and whether the socket is seized.
abbrev HeadFacts : SenderDataType → Bool → ℕ → Type 0
HeadFacts c seized head =
    (bit p_qsend head ≡ false)
    × (bit p_seize head ≡ (seized || is_seize c))
    × ((bit p_intr_res head || bit p_final_res head) ≡ (is_intr c || is_fres c))

head_facts :
    (c : SenderDataType) (soc : Socket) (seized : Bool)
    → let base = (get_packet_head c soc).0 in
      HeadFacts c seized (if seized then bit_or base p_seize else base)
unfolding get_packet_head
head_facts recv_err soc true = (refl, refl, refl)
head_facts recv_err soc false = (refl, refl, refl)
head_facts reset_timer soc true = (refl, refl, refl)
head_facts reset_timer soc false = (refl, refl, refl)
head_facts dat_err soc true = (refl, refl, refl)
head_facts dat_err soc false = (refl, refl, refl)
head_facts dat_recvd soc true = (refl, refl, refl)
head_facts dat_recvd soc false = (refl, refl, refl)
head_facts intr_send soc true = (refl, refl, refl)
head_facts intr_send soc false = (refl, refl, refl)
head_facts fres_send soc true = (refl, refl, refl)
head_facts fres_send soc false = (refl, refl, refl)
head_facts seize soc true = (refl, refl, refl)
head_facts seize soc false = (refl, refl, refl)
head_facts dat_null soc true = (refl, refl, refl)
head_facts dat_null soc false = (refl, refl, refl)

-- Whatever waits in the sink, the head of a packet never announces quick-send mode. It has the
-- seize bit exactly if the socket was seized or the packet is itself a seize packet, and the bit of
-- a result packet exactly if the item is such a result.
pub create_packet_head :
    {S : Type 0} (stats : S) (id : Bytes) (item : ForwardStackPackage) (sink : SenderSink)
    (soc : Socket)
    → let head = (create_packet stats id item sink soc).0.head in
      (bit p_qsend head ≡ false)
      × (bit p_seize head ≡ (soc.seize_mode || is_seize item.status_code))
      × ((bit p_intr_res head || bit p_final_res head) ≡ is_ackable item)
unfolding create_packet
create_packet_head stats id item sink soc =
    rw (get_socket_status-has_bit soc_seize soc, never_empty sink.fwd_stack)
      (head_facts item.status_code soc soc.seize_mode)
