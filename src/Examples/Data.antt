-- ===== src/Examples/Data.antt =====
-- A small memory for the examples: two channels, two targets and a few transactions.
use core_v_mini_mcu.Base.{◌==◌, if◌then◌else◌, some, ◌||◌}
use core_v_mini_mcu.Dma.Types.{Target, Trans, World, dim_1d, single, intr_wait}
use core_v_mini_mcu.Mmio.{Region}

abbrev pub from_memory : Target
from_memory = record {
  env = some (record { start = 0; end = 63 });
  ptr = 16;
  inc_d1_du = 1;
  inc_d2_du = 0;
  type = 0;
  trig = 0;
}

abbrev pub to_memory : Target
to_memory = record from_memory { env = some (record { start = 64; end = 127 }); ptr = 64 }

abbrev pub odd_source : Target
odd_source = record from_memory { ptr = 17 }

abbrev pub to_bytes : Target
to_bytes = record to_memory { type = 2 }

abbrev pub four_words : Trans
four_words = record {
  src = 0;
  dst = 1;
  src_addr = 1;
  inc_b = 0;
  size_d1_du = 4;
  size_d2_du = 0;
  dim = dim_1d;
  pad_top_du = 0;
  pad_bottom_du = 0;
  pad_left_du = 0;
  pad_right_du = 0;
  src_type = 0;
  dst_type = 0;
  sign_ext = 0;
  mode = single;
  dim_inv = 0;
  win_du = 0;
  end_event = intr_wait;
  flags = 0;
  channel = 1;
}

abbrev pub padded : Trans
padded = record four_words { pad_left_du = 2 }

abbrev pub faulty : Trans
faulty = record four_words { flags = 0x200 }

-- Both channels are ready, and both have raised their interrupt for the end of a transaction.
abbrev pub registers : Region
registers j = if j == 5 || j == 24 then 1 else 0

abbrev pub board : World
board = record {
  targets = λ a. if a == 0 then from_memory else to_memory;
  transactions = λ a. if a == 0 then four_words else if a == 1 then padded else faulty;
  banks = λ b. registers;
  channels = λ i. record { trans = some 0; intr_flag = 0; peri = i };
  hp_tr_intr_counter = 0;
  hp_win_intr_counter = 0;
  mie = 0;
  mstatus = 0;
}
