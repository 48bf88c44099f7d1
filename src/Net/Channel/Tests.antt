-- ===== src/Net/Channel/Tests.antt =====
-- A ready channel, for the theorem about dispatch.
use iot_distributed_gateway.Common.{true, false}
use iot_distributed_gateway.Net.Channel.{Channel, Ready}

-- Readable, and hung up.
abbrev last_bytes : Ready
last_bytes = record { in_ = true; pri = false; rdhup = true; out = false; err = false; hup = true }

abbrev tied_channel : Channel
tied_channel = record { reading = true; writing = false; tied = true; added = true }
