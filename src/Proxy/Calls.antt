-- ===== src/Proxy/Calls.antt =====
-- proxyPool/proxy.go, lines 109 to 166, with several calls of `GetRemoteAddr` at once: `RelayHandle`
-- runs once for each connection, and all share the channels `In` and `Out` and the loop of
-- `SyncServer`. A reply is a slice of the one buffer of the loop, which the next read overwrites.
pub mod Single
pub mod Stages
pub mod Turns
use route_server.Prelude.{
  ℕ, Option, none, some, List, [], ◌∷◌, ◌++◌, ◌≡◌, get_elem?, set, take, drop, length, replicate,
}
use route_server.Proxy.Relay.{remote_addr}

-- What comes over `Out`: a part of the buffer, or the byte 1 of its own.
pub data Reply : Type 0 where
  in_buf : ℕ → Reply
  one_byte : Reply

-- A call for a port: before the send on `In`, before the receive from `Out`, before the conversion of
-- the slice to a string, and after the return with an address or an error.
pub data Phase : Type 0 where
  asking : List ℕ → Phase
  waiting : List ℕ → Phase
  holding : List ℕ → Reply → Phase
  returned : List ℕ → Option (List ℕ) → Phase

-- The loop of `SyncServer`: before the receive from `In`, with the port to write, before the first read
-- (the port was written), before the second read on a new connection (on it the port was not
-- written), and before the send on `Out`.
pub data Loop : Type 0 where
  idle : Loop
  asked : List ℕ → Loop
  wrote : List ℕ → Loop
  reconnected : List ℕ → Loop
  replying : Reply → Loop

-- Both channels hold one message.
pub record State : Type 0 where
  pub inbox : Option (List ℕ)
  pub outbox : Option Reply
  pub buf : List ℕ
  pub loop : Loop
  pub calls : List Phase

-- The bytes of a reply, when they are looked at.
abbrev pub bytes_of : Reply → List ℕ → List ℕ
bytes_of (in_buf n) buf = take n buf
bytes_of one_byte buf = 1 ∷ []

-- A read into the buffer.
abbrev pub read_into : List ℕ → List ℕ → List ℕ
read_into bytes buf = bytes ++ drop (length bytes) buf

-- What may be read: `Answers port bytes`, on a connection on which the port is the last that was
-- written; `Greets bytes`, on a new connection on which nothing was written. Both are free: a stream
-- may give the same client different bytes at different times.
module _ (Answers : List ℕ → List ℕ → Type 0) (Greets : List ℕ → Type 0) where
  -- A step of a call or of the loop. A call may send only in a state that is `Allowed`.
  pub data Step (Allowed : State → Type 0) : State → State → Type 0 where
    send :
        (s : State) (i : ℕ) (port : List ℕ)
        → Allowed s
        → get_elem? s.calls i ≡ some (asking port)
        → s.inbox ≡ none
        → Step Allowed s (record s { inbox = some port; calls = set s.calls i (waiting port) })
    accept :
        (s : State) (port : List ℕ)
        → s.loop ≡ idle
        → s.inbox ≡ some port
        → Step Allowed s (record s { inbox = none; loop = asked port })
    write :
        (s : State) (port : List ℕ)
        → s.loop ≡ asked port
        → Step Allowed s (record s { loop = wrote port })
    write_fails :
        (s : State) (port : List ℕ)
        → s.loop ≡ asked port
        → Step Allowed s (record s { loop = replying one_byte })
    read :
        (s : State) (port bytes : List ℕ)
        → s.loop ≡ wrote port
        → Answers port bytes
        → Step Allowed s (record s {
          buf = read_into (take 1024 bytes) s.buf;
          loop = replying (in_buf (length (take 1024 bytes)));
        })
    read_fails :
        (s : State) (port : List ℕ)
        → s.loop ≡ wrote port
        → Step Allowed s (record s { loop = reconnected port })
    read_again :
        (s : State) (port bytes : List ℕ)
        → s.loop ≡ reconnected port
        → Greets bytes
        → Step Allowed s (record s {
          buf = read_into (take 1024 bytes) s.buf;
          loop = replying (in_buf (length (take 1024 bytes)));
        })
    read_again_fails :
        (s : State) (port : List ℕ)
        → s.loop ≡ reconnected port
        → Step Allowed s (record s { loop = replying one_byte })
    put :
        (s : State) (r : Reply)
        → s.loop ≡ replying r
        → s.outbox ≡ none
        → Step Allowed s (record s { outbox = some r; loop = idle })
    receive :
        (s : State) (i : ℕ) (port : List ℕ) (r : Reply)
        → get_elem? s.calls i ≡ some (waiting port)
        → s.outbox ≡ some r
        → Step Allowed s (record s { outbox = none; calls = set s.calls i (holding port r) })
    convert :
        (s : State) (i : ℕ) (port : List ℕ) (r : Reply)
        → get_elem? s.calls i ≡ some (holding port r)
        → Step Allowed s
            (record s { calls = set s.calls i (returned port (remote_addr (bytes_of r s.buf))) })

  pub data Reach (Allowed : State → Type 0) (s : State) : State → Type 0 where
    here : Reach Allowed s s
    next : {t u : State} → Reach Allowed s t → Step Allowed t u → Reach Allowed s u

-- The loop has connected to the client; the calls for the ports are about to send.
abbrev asking_all : List (List ℕ) → List Phase
asking_all [] = []
asking_all (p ∷ ports) = asking p ∷ asking_all ports

abbrev pub start : List (List ℕ) → State
start ports = record {
  inbox = none;
  outbox = none;
  buf = replicate 1024 0;
  loop = idle;
  calls = asking_all ports;
}
