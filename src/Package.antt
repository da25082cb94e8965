-- ===== src/Package.antt =====
-- The message format of src/task_msg.cpp: four bytes of request id, four bytes of length, data.
-- getAvailablePackage takes one package out of the ring buffer, once all of it is there.
pub mod Frame
pub mod Fetch
pub mod Overflow
pub mod Receiver
pub mod Pipeline
use task_monitor.Base.{
  ℕ, ◌+◌, ◌*◌, ◌/◌, ◌%◌, ◌^◌, List, [], ◌∷◌, ◌++◌, Bool, Option, none, some, ltb, leb, ◌==◌,
  if◌then◌else◌, length, drop, ℤ, pos, ok_code, fail_code, u32_mod,
}
use task_monitor.Ring.{RingBuf}

abbrev pub data_head_len : ℕ
data_head_len = 8

abbrev pub socket_buf_size : ℕ
socket_buf_size = 10 * 1024

-- The bytes of `htonl(n)` in memory.
unfoldable pub htonl : ℕ → List ℕ
htonl n = n / 2 ^ 24 % 256 ∷ n / 2 ^ 16 % 256 ∷ n / 2 ^ 8 % 256 ∷ n % 256 ∷ []

-- `ntohl` of the four bytes at the head of a buffer.
unfoldable pub ntohl : List ℕ → ℕ
ntohl (a ∷ b ∷ c ∷ d ∷ _) = a * 2 ^ 24 + b * 2 ^ 16 + c * 2 ^ 8 + d
ntohl _ = 0

-- What a call hands back through reqIdOut, lenOut and dataOut.
pub record Package : Type 0 where
  pub req_id : ℕ
  pub len : ℕ
  pub bytes : List ℕ

-- data + DATA_HEAD_LEN
unfoldable pub payload : Package → List ℕ
payload p = drop data_head_len p.bytes

-- The result, the package if there is one, and the ring buffer after the call.
pub record Fetched (rb : RingBuf) : Type 0 where
  pub ret : ℤ
  pub found : Option Package
  pub buf : rb.Buf

module _ (rb : RingBuf) where
  open rb use {Buf, data_size, read_data_only, read_data}

  -- `len + DATA_HEAD_LEN` is computed in `uint32_t`.
  abbrev pub total_len : ℕ → ℕ
  total_len len = (len + data_head_len) % u32_mod

  pub take_package : Buf → ℕ → ℕ → Fetched rb
  take_package b req_id len =
      let (b', bytes) = read_data b (total_len len) in
      if length bytes == total_len len
      then record {
        ret = pos 1;
        found = some (record { req_id = req_id; len = len; bytes = bytes });
        buf = b';
      }
      else record { ret = fail_code; found = none; buf = b' }

  abbrev pub nothing : Buf → Fetched rb
  nothing b = record { ret = ok_code; found = none; buf = b }

  -- `malloc_ok` says whether the one `malloc` gives memory.
  unfoldable pub get_available_package : Bool → Buf → Fetched rb
  unfolding take_package ntohl
  get_available_package malloc_ok b =
      let head = read_data_only b data_head_len in
      let req_id = ntohl head in
      let len = ntohl (drop 4 head) in
      if leb (data_size b) data_head_len
      then nothing b
      else if ltb (data_size b) (total_len len)
      then nothing b
      else if malloc_ok
      then take_package b req_id len
      else nothing b
