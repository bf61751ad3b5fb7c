-- ===== src/Replay/Serial.antt =====
-- REPLAY-OS/kernel/serial.c: the serial line, which is polled for each byte.
use bumbellbee_testing.Base.{ℕ, ◌≤◌, ◌≡◌, Bool, Option, some, List, [], ◌∷◌, length}
use bumbellbee_testing.Base.Bytes.{test_bit}
use bumbellbee_testing.Base.Ports.{PortWrite, outb}
use bumbellbee_testing.Base.Text.{c_string}
use bumbellbee_testing.Base.Uart.{Uart, send, send_all, ready, Sent, send_all_lem}

unfoldable pub init_serial : List PortWrite
init_serial =
    outb 0x3f9 0
    ∷ outb 0x3fb 0x80
    ∷ outb 0x3f8 3
    ∷ outb 0x3f9 0
    ∷ outb 0x3fb 3
    ∷ outb 0x3fa 0xC7
    ∷ outb 0x3fc 0x0B
    ∷ []

-- With the value that the line's status register gives.
unfoldable pub is_transmit_empty : ℕ → Bool
is_transmit_empty status = test_bit status 5

-- `none` where no status to come is one that lets the loop end.
unfoldable pub serial_putc : ℕ → Uart → Option Uart
serial_putc a u = send a u

-- The bytes of a buffer up to its terminator.
pub serial_print : List ℕ → Uart → Option Uart
serial_print str u = send_all (c_string str) u

-- If as many of the statuses to come as characters tell that the line is free, serial_print returns,
-- and it has sent the characters up to the zero, in their order.
pub serial_print_lem :
    (str : List ℕ) (u : Uart)
    → length (c_string str) ≤ ready 5 u.status
    → (v : Uart) × ((serial_print str u ≡ some v) × Sent (c_string str) u v)
unfolding serial_print
serial_print_lem str u = send_all_lem (c_string str) u
