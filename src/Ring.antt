-- ===== src/Ring.antt =====
-- ring_buf.h, a library outside the repository: what src/task_msg.cpp calls of it, and what the
-- calls are documented to do.
use task_monitor.Base.{ℕ, ◌≤◌, ◌≡◌, List, [], ◌++◌, Option, some, length, take, drop}

pub record RingBuf : Type 1 where
  pub Buf : Type 0
  -- ring_buf_create: `none` where the memory is not there.
  pub create : ℕ → Option Buf
  -- get_data_size
  pub data_size : Buf → ℕ
  -- ring_buf_read_data_only: the first bytes, left in place.
  pub read_data_only : Buf → ℕ → List ℕ
  -- ring_buf_read_data: the first bytes, taken out.
  pub read_data : Buf → ℕ → Buf × List ℕ
  -- ring_buf_write_data: how many bytes were put in.
  pub write_data : Buf → List ℕ → Buf × ℕ

-- A queue of bytes.
pub record IsRing (rb : RingBuf) : Type 0 where
  pub contents : rb.Buf → List ℕ
  pub data_size_lem : (b : rb.Buf) → rb.data_size b ≡ length (contents b)
  pub read_data_only_lem : (b : rb.Buf) (n : ℕ) → rb.read_data_only b n ≡ take n (contents b)
  pub read_data_bytes : (b : rb.Buf) (n : ℕ) → (rb.read_data b n).1 ≡ take n (contents b)
  pub read_data_rest : (b : rb.Buf) (n : ℕ) → contents (rb.read_data b n).0 ≡ drop n (contents b)
  pub write_data_le : (b : rb.Buf) (d : List ℕ) → (rb.write_data b d).1 ≤ length d
  pub write_data_lem :
      (b : rb.Buf) (d : List ℕ)
      → contents (rb.write_data b d).0 ≡ contents b ++ take (rb.write_data b d).1 d
  pub create_lem : (n : ℕ) (b : rb.Buf) → rb.create n ≡ some b → contents b ≡ []
