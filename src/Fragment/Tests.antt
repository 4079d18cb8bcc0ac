-- ===== src/Fragment/Tests.antt =====
-- A short ClientHello through the layer, and the other theorems at concrete input.
use local_proxy_rs.Base.{
  ℕ, zero, suc, ◌+◌, ◌-◌, ◌≡◌, ◌≢◌, refl, true, false, List, [], ◌∷◌, ◌++◌, none, some, Bytes,
  arith,
}
use local_proxy_rs.Fragment.Inner.{Poll, pending, ready, Reply, takes, would_block, Stream}
use local_proxy_rs.Fragment.{
  Buffer, new_buffer, Header, waiting_header, sending_message, sending_data, accept,
}
use local_proxy_rs.Fragment.Send.{send_message, send_chunk, send_byte, send_raw}
use local_proxy_rs.Fragment.Chunk.{Settled}
use local_proxy_rs.Fragment.Layer.{
  FragmentLayer, new_layer, poll_flush, poll_write, poll_read, flush_state,
}
use local_proxy_rs.Fragment.Message.{fragments, left_over}
use local_proxy_rs.Fragment.Flush.{poll_flushes}
use local_proxy_rs.Fragment.Accumulate.{accept-append}
use local_proxy_rs.Fragment.Through.{
  PassesOn, Call, write, read, flush, wrote, got, done, calls, on_layer, calls-through,
}
use local_proxy_rs.Fragment.Hello.{poll_writes, Receives, sending_hello, poll_flush-hello}
use local_proxy_rs.Fragment.Ready.{poll_flush-hello_ready}
use local_proxy_rs.Fragment.Raw.{send_raw-resends, flush_state-trailing, poll_read-elapsed}

abbrev hello_writes : List Bytes
hello_writes = (0x16 ∷ 3 ∷ 1 ∷ []) ∷ (0 ∷ 3 ∷ 1 ∷ 7 ∷ 9 ∷ []) ∷ []

abbrev replies : ℕ → List Reply
replies zero = []
replies (suc n) = takes 1 ∷ replies n

abbrev eager : Stream
eager = record { script = replies 40; sent = 5 ∷ [] }

-- The stream blocks in the middle.
abbrev halting : Stream
halting = record { script = takes 1 ∷ takes 1 ∷ would_block ∷ replies 40; sent = [] }

-- What is written and read behind the first messages.
abbrev later : List Call
later = write (7 ∷ 8 ∷ []) ∷ read (λ s. (s, ready (9 ∷ []))) false ∷ flush ∷ []

poll_flush-hello_example :
    Settled (poll_flushes 1 (poll_writes (new_layer halting) hello_writes)).1 (
      ((w : Bytes) × ((poll_flushes 1 (poll_writes (new_layer halting) hello_writes)).0.inner.sent
          ≡ [] ++ w)
        × Receives (0x16 ∷ 3 ∷ 1 ∷ []) (1 ∷ 7 ∷ 9 ∷ []) w)
      × PassesOn later (poll_flushes 1 (poll_writes (new_layer halting) hello_writes)).0)
poll_flush-hello_example =
    poll_flush-hello 3 1 0 3 (7 ∷ 9 ∷ []) hello_writes 1 halting later refl
      (omega arith, (omega arith, tt)) refl

poll_flush-hello_ready_example :
    ((poll_flush (poll_writes (new_layer eager) hello_writes)).1 ≡ ready tt)
    × ((poll_flush (poll_writes (new_layer eager) hello_writes)).0.inner.sent
        ≡ (5 ∷ []) ++ fragments (0x16 ∷ 3 ∷ 1 ∷ []) (1 ∷ 7 ∷ 9 ∷ []))
poll_flush-hello_ready_example =
    poll_flush-hello_ready 3 1 0 3 (7 ∷ 9 ∷ []) hello_writes eager refl
      (omega arith, (omega arith, tt)) refl (omega arith)

abbrev halting_hello : FragmentLayer
halting_hello = sending_hello halting 3 1 0 3 (7 ∷ 9 ∷ [])

first_write :
    accept (waiting_header new_buffer) (0x16 ∷ 3 ∷ [])
    ≡ some (waiting_header (record { inner = 0x16 ∷ 3 ∷ []; ptr = 0 }))
unfolding accept
first_write = refl

accept-append_example :
    accept (waiting_header (record { inner = 0x16 ∷ 3 ∷ []; ptr = 0 })) (1 ∷ 0 ∷ 9 ∷ 1 ∷ [])
    ≡ accept (waiting_header new_buffer) (0x16 ∷ 3 ∷ 1 ∷ 0 ∷ 9 ∷ 1 ∷ [])
accept-append_example = accept-append (0x16 ∷ 3 ∷ []) (1 ∷ 0 ∷ 9 ∷ 1 ∷ []) first_write refl

-- A stream for a request in plain text.
abbrev plain_stream : Stream
plain_stream = record { script = takes 9 ∷ takes 0 ∷ takes 1 ∷ would_block ∷ []; sent = [] }

not_handshake : ◌≢◌ {A = ℕ} 71 0x16
not_handshake e = omega arith

calls-through_example :
    let (l1, written) = poll_write (new_layer plain_stream) (71 ∷ 69 ∷ []) in
    let (l2, flushed) = poll_flush l1 in
    let (l3, answers) = calls on_layer later l2 in
    (written ≡ ready 2)
    × (flushed ≡ ready tt)
    × (l3.inner ≡ record { script = []; sent = 71 ∷ 69 ∷ 7 ∷ [] })
    × (answers ≡ wrote (ready 1) ∷ got (ready (9 ∷ [])) ∷ done pending ∷ [])
calls-through_example =
    calls-through 71 (69 ∷ []) plain_stream 9 0 (takes 1 ∷ would_block ∷ []) later not_handshake
      (omega arith) refl

send_raw-resends_example :
    let (s, buf, p) =
      send_raw (takes 1 ∷ takes 3 ∷ []) [] (record { inner = 71 ∷ 69 ∷ 84 ∷ []; ptr = 0 }) in
    (s.sent ≡ [] ++ ((71 ∷ []) ++ 71 ∷ 69 ∷ 84 ∷ []))
    × (s.sent ≢ [] ++ (71 ∷ 69 ∷ 84 ∷ []))
    × (p ≡ ready tt)
send_raw-resends_example =
    send_raw-resends (71 ∷ 69 ∷ 84 ∷ []) [] 1 3 [] (omega arith) (omega arith) (omega arith)

-- A record of one byte, and a byte behind it.
abbrev trailing : Buffer
trailing = record { inner = 0x16 ∷ 3 ∷ 1 ∷ 0 ∷ 1 ∷ 1 ∷ 0x14 ∷ []; ptr = 5 }

abbrev trailing_header : Header
trailing_header = record { base = 0x16 ∷ 3 ∷ 1 ∷ []; len = 6 }

abbrev trailing_stream : Stream
trailing_stream = record { script = replies 12 ++ takes 9 ∷ takes 9 ∷ []; sent = [] }

trailing_run :
    send_message trailing_header
      (trailing_header.len - trailing.ptr + 1)
      trailing_stream
      trailing
      none
    ≡ (
      record { script = takes 9 ∷ takes 9 ∷ []; sent = 0x16 ∷ 3 ∷ 1 ∷ 0 ∷ 1 ∷ 1 ∷ [] },
      record { inner = trailing.inner; ptr = 6 },
      some (record { inner = 0x16 ∷ 3 ∷ 1 ∷ 0 ∷ 0 ∷ []; ptr = 0 }),
      ready tt,
    )
unfolding send_message send_chunk send_byte
trailing_run = refl

flush_state-trailing_example :
    flush_state trailing_stream (sending_message trailing trailing_header none) ≡ (
      record {
        script = [];
        sent = [] ++ left_over trailing_header trailing none ++ trailing.inner;
      },
      sending_data,
      ready tt,
    )
flush_state-trailing_example =
    flush_state-trailing trailing_header trailing_stream trailing none
      (record { script = takes 9 ∷ takes 9 ∷ []; sent = 0x16 ∷ 3 ∷ 1 ∷ 0 ∷ 1 ∷ 1 ∷ [] })
      (record { inner = trailing.inner; ptr = 6 })
      (some (record { inner = 0x16 ∷ 3 ∷ 1 ∷ 0 ∷ 0 ∷ []; ptr = 0 })) 9 9 []
      (record { base = refl; complete = omega arith; within = omega arith; chunk = tt })
      (omega arith) trailing_run refl (omega arith)

abbrev waiting_layer : FragmentLayer
waiting_layer = record {
  inner = record { script = takes 9 ∷ takes 9 ∷ []; sent = 5 ∷ [] };
  state = waiting_header (record { inner = 0x16 ∷ 3 ∷ []; ptr = 0 });
  timer = true;
}

-- A stream below that has two bytes to read.
abbrev two_bytes : Stream → Stream × Poll Bytes
two_bytes s = (s, ready (8 ∷ 9 ∷ []))

poll_read-elapsed_example : poll_read two_bytes true waiting_layer ≡ (
  record {
    inner = record { script = []; sent = 5 ∷ 0x16 ∷ 3 ∷ [] };
    state = sending_data;
    timer = false;
  },
  ready (8 ∷ 9 ∷ []),
)
poll_read-elapsed_example =
    poll_read-elapsed two_bytes waiting_layer 9 9 [] refl (omega arith) (omega arith) refl
