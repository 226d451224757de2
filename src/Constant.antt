-- ===== src/Constant.antt =====
-- engine/include/constant.hh: the constants that the modelled code reads.
use semantic_sentinel.Base.{ℕ, ◌+◌, ◌*◌}

abbrev pub g_shutdown_timeout : ℕ
g_shutdown_timeout = 5

abbrev pub vector_dim : ℕ
vector_dim = 384

abbrev pub vector_memsize : ℕ
vector_memsize = vector_dim * 4

abbrev pub l0_max_slots : ℕ
l0_max_slots = 1_000

abbrev pub l1_max_slots : ℕ
l1_max_slots = 500_000

abbrev pub total_max_slots : ℕ
total_max_slots = l0_max_slots + l1_max_slots

abbrev pub max_payload_length : ℕ
max_payload_length = 0xFFFFFF

abbrev pub virtual_offset_mask : ℕ
virtual_offset_mask = 0x1FFFFFFFFF

abbrev pub payload_buffer_size : ℕ
payload_buffer_size = 4 * 1024 * 1024 * 1024

abbrev pub pending_lifespan : ℕ
pending_lifespan = 30

abbrev pub valid_identifier : ℕ
valid_identifier = 0xDEADBEEF

abbrev pub low_watermark_threshold : ℕ
low_watermark_threshold = 2 * 1024 * 1024 * 1024

abbrev pub low_gc_sleep_ms : ℕ
low_gc_sleep_ms = 10

abbrev pub high_watermark_threshold : ℕ
high_watermark_threshold = (3 * 1024 + 512) * 1024 * 1024

abbrev pub high_gc_sleep_ms : ℕ
high_gc_sleep_ms = 1
