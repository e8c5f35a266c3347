-- ===== src/ForwardingHandler/Chunk.antt =====
-- The chunks that FORWARDING_HANDLER::OnSendingRequest of
-- AspNetCoreModuleV2/RequestHandler/outofprocess/forwardinghandler.cpp writes around the data in the
-- entity buffer.
use iisintegration.Prelude.{ℕ, ◌+◌, ◌-◌, ◌/◌, ◌%◌, List, ltb, if◌then◌else◌, set, take, drop}

-- `HEX_TO_ASCII`
abbrev pub hex_to_ascii : ℕ → ℕ
hex_to_ascii c = if ltb c 10 then c + 48 else c + 97 - 10

-- The entity buffer, and the part of it to be written.
pub record Chunk : Type 0 where
  pub buffer : List ℕ
  pub offset : ℕ
  pub size : ℕ

abbrev pub set_crlf : ℕ → List ℕ → List ℕ
set_crlf cb b = set (set (set (set b 4 13) 5 10) (6 + cb) 13) (7 + cb) 10

unfoldable pub rechunk : ℕ → List ℕ → Chunk
rechunk cb b =
    let c = set_crlf cb b in
    if ltb cb 0x10
    then record { buffer = set c 3 (hex_to_ascii cb); offset = 3; size = 5 + cb }
    else if ltb cb 0x100
    then record {
      buffer = set (set c 2 (hex_to_ascii (cb / 16))) 3 (hex_to_ascii (cb % 16));
      offset = 2;
      size = 6 + cb;
    }
    else if ltb cb 0x1000
    then record {
      buffer =
          set (set (set c 1 (hex_to_ascii (cb / 256))) 2 (hex_to_ascii (cb / 16 % 16))) 3
            (hex_to_ascii (cb % 16));
      offset = 1;
      size = 7 + cb;
    }
    else record {
      buffer =
          set
            (set (set (set c 0 (hex_to_ascii (cb / 4096))) 1 (hex_to_ascii (cb / 256 % 16))) 2
              (hex_to_ascii (cb / 16 % 16)))
            3 (hex_to_ascii (cb % 16));
      offset = 0;
      size = 8 + cb;
    }

-- What `WinHttpWriteData` is given.
unfoldable pub chunk_bytes : Chunk → List ℕ
chunk_bytes c = take c.size (drop c.offset c.buffer)
