-- ===== src/Research/Serial.antt =====
-- RESEARCH-OS/src/drivers/serial.c: the serial line, which is polled for each byte.
use bumbellbee_testing.Base.{ℕ, ◌<◌, ◌≤◌, ◌≡◌, Bool, Option, none, some, List, length}
use bumbellbee_testing.Base.Bytes.{test_bit}
use bumbellbee_testing.Base.Text.{c_string}
use bumbellbee_testing.Base.Uart.{Uart, send, send_all, ready, Sent, send_all_lem, send_all_waits}

-- With the value that the line's status register gives.
unfoldable pub is_transmit_empty : ℕ → Bool
is_transmit_empty status = test_bit status 5

-- `none` where no status to come is one that lets the loop end.
unfoldable pub write_serial : ℕ → Uart → Option Uart
write_serial a u = send a u

-- The bytes of a buffer up to its terminator.
pub print_serial : List ℕ → Uart → Option Uart
print_serial str u = send_all (c_string str) u

-- print_serial returns if at least as many of the statuses to come as characters tell that the line
-- is free: it has then sent the characters up to the zero, in their order, with one such status for
-- each; with fewer it waits for ever.
pub print_serial_lem :
    (str : List ℕ) (u : Uart)
    → (length (c_string str) ≤ ready 5 u.status
        → (v : Uart) × ((print_serial str u ≡ some v) × Sent (c_string str) u v))
      × (ready 5 u.status < length (c_string str) → print_serial str u ≡ none)
unfolding print_serial
print_serial_lem str u = (send_all_lem (c_string str) u, send_all_waits (c_string str) u)
