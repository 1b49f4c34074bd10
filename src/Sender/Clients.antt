-- ===== src/Sender/Clients.antt =====
-- socket/socket.cpp: the socket thread and the client threads it starts, step by step. What a step
-- does the other threads cannot interrupt where it matters: a flag is read or written at once.
use worker_unit.Base.{ℕ, ◌≡◌, Bool, Option, none, some, List, ◌∷◌, ◌++◌}
use worker_unit.Base.Text.{Bytes}
use worker_unit.Socket.{
  SocketStatus, soc_normal_mode, soc_quicksend_mode, get_socket_status, reset_flag, has_bit,
}
use worker_unit.Sender.Package.{done}
use worker_unit.Sender.Sink.{Packet, Sending, pop_packet, Launch, normal, quick, dropped, launch}
pub mod Modes
pub mod Flags
pub mod Exclusion
pub mod Lost

module _ {S : Type 0} (stats : S) (R : Type 0) where
  -- Where the loop of `socket_task` stands: at its head, with the status word, or with the packet too.
  pub data Phase : Type 0 where
    looping : Phase
    chosen : ℕ → Phase
    ready : ℕ → Packet S → Phase

  -- A running client thread is the packet that it sends. Each container is shared by all the threads
  -- of its mode. `received` are the replies that `init_receiver` got, the last one first.
  pub record System : Type 0 where
    pub sending : Sending stats
    pub phase : Phase
    pub normal_clients : List (Packet S)
    pub quick_clients : List (Packet S)
    pub normal_container : Option (Packet S)
    pub quick_container : Option (Packet S)
    pub received : List R

  unfoldable pub read_status : System → System
  unfolding get_socket_status
  read_status x = record x { phase = chosen (get_socket_status x.sending.socket) }

  -- The two branches store the packet in the container, and start a thread.
  unfoldable pub start_client : Launch stats × Sending stats → System → System
  start_client (normal p, s) x = record x {
    sending = s;
    phase = looping;
    normal_clients = p ∷ x.normal_clients;
    normal_container = some p;
  }
  start_client (quick p, s) x = record x {
    sending = s;
    phase = looping;
    quick_clients = p ∷ x.quick_clients;
    quick_container = some p;
  }
  start_client (dropped p, s) x = record x { sending = s; phase = looping }

  abbrev pub with_flag_reset : SocketStatus → Sending stats → Sending stats
  with_flag_reset m s = record s { socket = reset_flag m s.socket }

  -- The end of `launch_client_socket`, with the reply and the other threads of the mode.
  unfoldable pub end_normal_client : R → List (Packet S) → System → System
  end_normal_client reply others x = record x {
    sending = with_flag_reset soc_normal_mode x.sending;
    normal_clients = others;
    received = reply ∷ x.received;
  }

  unfoldable pub end_quick_client : R → List (Packet S) → System → System
  end_quick_client reply others x = record x {
    sending = with_flag_reset soc_quicksend_mode x.sending;
    quick_clients = others;
    received = reply ∷ x.received;
  }

  pub data Step : System → System → Type 0 where
    read : (x : System) → x.phase ≡ looping → Step x (read_status x)
    take :
        (x : System) (status : ℕ) (assigned : Option Bytes) (p : Packet S) (s : Sending stats)
        → x.phase ≡ chosen status
        → pop_packet stats assigned x.sending ≡ done (p, s)
        → Step x (record x { sending = s; phase = ready status p })
    start :
        (x : System) (status : ℕ) (p : Packet S)
        → x.phase ≡ ready status p
        → Step x (start_client (launch stats status p x.sending) x)
    end_normal :
        (x : System) (before after : List (Packet S)) (p : Packet S) (reply : R)
        → x.normal_clients ≡ before ++ (p ∷ after)
        → Step x (end_normal_client reply (before ++ after) x)
    end_quick :
        (x : System) (before after : List (Packet S)) (p : Packet S) (reply : R)
        → x.quick_clients ≡ before ++ (p ∷ after)
        → Step x (end_quick_client reply (before ++ after) x)
    -- Another thread pushes a packet, matches an acknowledgement, or sets the worker's id.
    other :
        (x : System) (s : Sending stats)
        → s.socket ≡ x.sending.socket
        → Step x (record x { sending = s })

  pub data Reach (x : System) : System → Type 0 where
    here : Reach x x
    later : {y z : System} → Reach x y → Step y z → Reach x z
