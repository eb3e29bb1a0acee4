-- ===== src/Channel/CircularBuffer/Tests.antt =====
-- A buffer of four tokens whose counters have passed the capacity.
use hi_cr.Prelude.{arith}
use hi_cr.Channel.CircularBuffer.{CircularBuffer}
use hi_cr.Channel.CircularBuffer.Inv.{IsValid}

abbrev sample : CircularBuffer
sample = record { capacity = 4; head = 9; tail = 6 }

sample-IsValid : IsValid sample
sample-IsValid = omega arith
