-- ===== src/Constants.antt =====
-- The protocol constants of microtun-core/src/constants.rs that the modelled parts read, and
-- sizes of microtun-core/src/crypto.rs. Durations are in milliseconds.
use microtun.Prelude.{ℕ, ◌-◌, ◌^◌, u64_max}

abbrev pub rekey_after_messages : ℕ
rekey_after_messages = 2 ^ 60

-- `u64::MAX - (1 << 13)`
abbrev pub reject_after_messages : ℕ
reject_after_messages = u64_max - 2 ^ 13

abbrev pub rekey_after_time : ℕ
rekey_after_time = 120000

abbrev pub reject_after_time : ℕ
reject_after_time = 180000

abbrev pub rekey_attempt_time : ℕ
rekey_attempt_time = 90000

abbrev pub rekey_timeout : ℕ
rekey_timeout = 5000

abbrev pub keepalive_timeout : ℕ
keepalive_timeout = 10000

-- `TAG_LEN`, `TIMESTAMP_LEN` and `XNONCE_LEN` of crypto.rs.
abbrev pub tag_len : ℕ
tag_len = 16

abbrev pub timestamp_len : ℕ
timestamp_len = 12

abbrev pub xnonce_len : ℕ
xnonce_len = 24
