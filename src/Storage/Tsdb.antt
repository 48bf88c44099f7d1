-- ===== src/Storage/Tsdb.antt =====
-- src/storage/TsdbClient.h and src/storage/TsdbClient.cpp: the line protocol and the batch. A text that
-- snprintf takes by %s is cut at its first NUL byte, `c_str`.
pub mod Batch
mod Tests
use iot_distributed_gateway.Common.{
  ℕ, suc, ◌+◌, ◌*◌, ◌==◌, ◌||◌, Bytes, List, [], ◌∷◌, ◌++◌, Bool, true, false, if◌then◌else◌, leb,
  length,
}
use iot_distributed_gateway.Common.CString.{c_str}
use iot_distributed_gateway.Common.Text.{ascii}
use iot_distributed_gateway.Common.Decimal.{int64_half, signed_string}

pub record TsdbClient : Type 0 where
  pub connected : Bool
  pub batch_buffer : Bytes
  pub batch_count : ℕ

-- The bodies that go to sendHttpPost.
abbrev pub Step : Type 0
Step = TsdbClient × List Bytes

abbrev pub max_batch_size : ℕ
max_batch_size = 100

abbrev pub max_batch_bytes : ℕ
max_batch_bytes = 1024 * 1024

-- The size of the array of a line, with the NUL.
abbrev pub line_size : ℕ
line_size = 4096

unfoldable pub create : TsdbClient
create = record { connected = false; batch_buffer = []; batch_count = 0 }

unfoldable pub connect : TsdbClient → TsdbClient
connect c = record c { connected = true }

abbrev pub flush_if : Bytes → TsdbClient → Step
flush_if [] c = (c, [])
flush_if (x ∷ xs) c = (record c { batch_buffer = []; batch_count = 0 }, (x ∷ xs) ∷ [])

unfoldable pub flush : TsdbClient → Step
flush c = flush_if c.batch_buffer c

unfoldable pub disconnect : TsdbClient → Step
unfolding flush
disconnect c = let (c', posts) = flush c in (record c' { connected = false }, posts)

unfoldable pub escape : Bytes → Bytes
escape [] = []
escape (c ∷ rest) = if c == 34 || c == 92 then 92 ∷ c ∷ escape rest else c ∷ escape rest

-- `now` is in microseconds.
unfoldable pub format_line : ℕ → Bytes → Bytes → Bytes → Bytes
unfolding escape
format_line now device_id measurement value =
    ascii "device_data,device_id="
    ++ (c_str device_id
        ++ (ascii ",topic="
            ++ (c_str measurement
                ++ (ascii " value=\""
                    ++ (c_str (escape value)
                        ++ (ascii "\" "
                            ++ (signed_string int64_half (now * 1000) ++ (10 ∷ []))))))))

-- The line joins the batch, which goes out when it is large enough.
unfoldable pub add_line : Bytes → TsdbClient → Step
unfolding flush
add_line line c =
    let c' : TsdbClient = record c {
      batch_buffer = c.batch_buffer ++ line;
      batch_count = suc c.batch_count;
    } in
    if leb max_batch_size c'.batch_count || leb max_batch_bytes (length c'.batch_buffer)
    then flush c'
    else (c', [])

unfoldable pub write_device_data : ℕ → Bytes → Bytes → Bytes → TsdbClient → Step
unfolding format_line add_line
write_device_data now device_id measurement value c =
    let line = format_line now device_id measurement value in
    if c.connected
    then (if leb line_size (length line) then (c, []) else add_line line c)
    else (c, [])
