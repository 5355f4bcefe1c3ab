-- ===== src/Framing/Tests.antt =====
-- Tests of the transports over a serial line, with a port that gives one byte in each read.
use async_duck_db.Common.{
  ℕ, zero, suc, ◌≤◌, ◌≡◌, ◌≢◌, refl, ap, All, true, List, [], ◌∷◌, ◌++◌, Option, some, length,
  arith,
}
use async_duck_db.Framing.{DmqHeader, new_header, set_length, header_bytes, crc_of, crc_of_parts}
use async_duck_db.Crc.{crc16_table, table_entry}
use async_duck_db.Framing.Words.{IsByte}
use async_duck_db.Framing.Port.{Read, IsStream, IsTimely}
use async_duck_db.Framing.Serial.{
  packet, send, SerialTransport, received, refused, running, receive, acks,
}
use async_duck_db.Framing.Serial.RoundTrip.{receive-send}
use async_duck_db.Framing.Serial.Receipt.{IsTaken, receive-IsTaken}
use async_duck_db.Framing.Serial.Endings.{receive-ends, receive-doubled}
use async_duck_db.Framing.Ring.{new_ring}
use async_duck_db.Framing.Ring.Fifo.{put_op, get_op, perform_all, serve_all, perform_all-serve_ring}
use async_duck_db.Framing.Uart
use async_duck_db.Framing.Uart.{Stm32UartTransport, Look, ring_size, read_byte_blocked}
use async_duck_db.Framing.Uart.Source.{IsLine}
use async_duck_db.Framing.Uart.RoundTrip.{receive-send_uart}

abbrev read_byte : Read (List ℕ)
read_byte n t [] = ([], [])
read_byte zero t (b ∷ s) = ([], b ∷ s)
read_byte (suc n) t (b ∷ s) = (b ∷ [], s)

read_byte-in_order : (n t : ℕ) (s : List ℕ) → (read_byte n t s).0 ++ (read_byte n t s).1 ≡ s
read_byte-in_order n t [] = refl
read_byte-in_order zero t (b ∷ s) = refl
read_byte-in_order (suc n) t (b ∷ s) = refl

read_byte-at_most : (n t : ℕ) (s : List ℕ) → length (read_byte n t s).0 ≤ n
read_byte-at_most n t [] = omega arith
read_byte-at_most zero t (b ∷ s) = omega arith
read_byte-at_most (suc n) t (b ∷ s) = omega arith

abbrev byte_stream : IsStream read_byte
byte_stream = record {
  pending = λ s. s;
  in_order = read_byte-in_order;
  at_most = read_byte-at_most;
}

byte_stream-IsTimely : IsTimely read_byte byte_stream
byte_stream-IsTimely n t [] h e = h refl
byte_stream-IsTimely n t (b ∷ s) h e = cc e

abbrev both_ends : SerialTransport
both_ends = record { is_open = true; is_receiver = true; has_monitor = true; has_sender = true }

abbrev seventh : DmqHeader
seventh = new_header 7 1

abbrev write_all : List ℕ → Option ℕ
write_all bs = some (length bs)

abbrev letter : List ℕ
letter = 170 ∷ 85 ∷ 0 ∷ 7 ∷ 0 ∷ 1 ∷ 0 ∷ 1 ∷ 65 ∷ 95 ∷ 185 ∷ []

send-letter : send (some write_all) seventh (65 ∷ []) ≡ (true, some letter)
unfolding send packet header_bytes crc_of crc16_table table_entry
send-letter = refl

abbrev line : List ℕ
line = 1 ∷ (letter ++ (2 ∷ []))

receive-send_example :
    ((receive read_byte both_ends 9 line).0
      ≡ received (set_length 1 seventh) (65 ∷ []) (acks both_ends seventh))
    × ((receive read_byte both_ends 9 line).1 ≡ 2 ∷ [])
receive-send_example =
    receive-send read_byte byte_stream both_ends byte_stream-IsTimely refl refl write_all seventh
      (65 ∷ []) (1 ∷ []) letter (2 ∷ []) 9 line (omega arith, omega arith, omega arith, omega arith)
      refl (omega arith) (ap (λ r. r.1) send-letter) refl refl (omega arith)

receive-line :
    (receive read_byte both_ends 9 line).0
    ≡ received (set_length 1 seventh) (65 ∷ []) (acks both_ends seventh)
receive-line =
    (receive-send read_byte byte_stream both_ends byte_stream-IsTimely refl refl write_all seventh
      (65 ∷ []) (1 ∷ []) letter (2 ∷ []) 9 line (omega arith, omega arith, omega arith, omega arith)
      refl (omega arith) (ap (λ r. r.1) send-letter) refl refl (omega arith)).0

line-IsByte : All IsByte line
line-IsByte = (
  omega arith,
  (
    omega arith,
    (
      omega arith,
      (
        omega arith,
        (
          omega arith,
          (
            omega arith,
            (
              omega arith,
              (
                omega arith,
                (omega arith, (omega arith, (omega arith, (omega arith, (omega arith, (tt)))))),
              ),
            ),
          ),
        ),
      ),
    ),
  ),
)

receive-IsTaken_example :
    IsTaken both_ends
      (set_length 1 seventh)
      (65 ∷ [])
      (acks both_ends seventh)
      line
      (receive read_byte both_ends 9 line).1
receive-IsTaken_example =
    receive-IsTaken read_byte byte_stream both_ends 9 line (set_length 1 seventh) (65 ∷ [])
      (acks both_ends seventh) line-IsByte receive-line

receive-ends_example : (receive read_byte both_ends 14 line).0 ≢ running
receive-ends_example = receive-ends read_byte byte_stream both_ends 14 line (omega arith)

receive-doubled_example : (receive read_byte both_ends 12 (170 ∷ letter)).0 ≡ refused
receive-doubled_example =
    receive-doubled read_byte byte_stream both_ends byte_stream-IsTimely write_all seventh (65 ∷ [])
      (85 ∷ 0 ∷ 7 ∷ 0 ∷ 1 ∷ 0 ∷ 1 ∷ 65 ∷ 95 ∷ 185 ∷ []) 12 (170 ∷ letter)
      (ap (λ r. r.1) send-letter) refl refl (omega arith)

abbrev device : Stm32UartTransport
device = record { is_receiver = true; has_monitor = true; has_sender = true }

send_uart_letter : Uart.send true (λ bs. true) seventh (65 ∷ []) ≡ (true, letter)
unfolding Uart.send header_bytes crc_of_parts crc16_table table_entry
send_uart_letter = refl

abbrev bursts : List Look
bursts =
    record { burst = 1 ∷ 170 ∷ 85 ∷ 0 ∷ []; taken = true }
    ∷ record { burst = []; taken = true }
    ∷ record { burst = 7 ∷ 0 ∷ 1 ∷ 0 ∷ 1 ∷ 65 ∷ 95 ∷ 185 ∷ 2 ∷ []; taken = true }
    ∷ []

receive-send_uart_example :
    let r =
      Uart.receive read_byte_blocked device 2
        (record { ring = new_ring ring_size; looks = bursts }) in
    (r.0 ≡ Uart.received (set_length 1 seventh) (65 ∷ []) (Uart.acks device seventh))
    × IsLine r.1 (2 ∷ [])
receive-send_uart_example =
    receive-send_uart device true (λ bs. true) seventh (65 ∷ []) (1 ∷ []) letter (2 ∷ []) bursts 2
      refl (omega arith, omega arith, omega arith, omega arith) refl (omega arith) send_uart_letter
      refl (omega arith) (refl, (refl, (refl, tt))) refl (omega arith)

perform_all-serve_ring_example :
    perform_all (put_op 5 ∷ put_op 6 ∷ get_op ∷ put_op 7 ∷ get_op ∷ get_op ∷ []) (new_ring 2)
    ≡ serve_all 2 (put_op 5 ∷ put_op 6 ∷ get_op ∷ put_op 7 ∷ get_op ∷ get_op ∷ []) []
perform_all-serve_ring_example =
    perform_all-serve_ring 2 (put_op 5 ∷ put_op 6 ∷ get_op ∷ put_op 7 ∷ get_op ∷ get_op ∷ [])
      (omega arith)
