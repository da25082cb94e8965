-- ===== src/Package/Frame.antt =====
-- The frames of the message format of src/task_msg.cpp, as the sender lays them out.
use task_monitor.Base.{
  ℕ, ◌+◌, ◌≤◌, ◌<◌, ◌≡◌, refl, List, ◌++◌, arith, length, take, drop, take-append, take-append-drop,
  sym, ap, ◌∙◌, u32_mod,
}
use task_monitor.Package.{htonl, ntohl, payload}

-- Request id, length, data.
abbrev pub frame : ℕ → List ℕ → List ℕ
frame req_id text = htonl req_id ++ (htonl (length text) ++ text)

pub ntohl-htonl : (n : ℕ) (rest : List ℕ) → n < u32_mod → ntohl (htonl n ++ rest) ≡ n
unfolding ntohl htonl
ntohl-htonl n rest h = omega arith

pub length-htonl : (n : ℕ) → length (htonl n) ≡ 4
unfolding htonl
length-htonl n = refl

pub length-frame : (req_id : ℕ) (text : List ℕ) → length (frame req_id text) ≡ 8 + length text
unfolding htonl
length-frame req_id text = omega arith

pub frame-append :
    (req_id : ℕ) (text rest : List ℕ)
    → frame req_id text ++ rest ≡ htonl req_id ++ (htonl (length text) ++ (text ++ rest))
unfolding htonl
frame-append req_id text rest = refl

-- A long enough beginning of a frame begins with the whole header.
pub header_prefix :
    (req_id : ℕ) (text begun missing : List ℕ)
    → begun ++ missing ≡ frame req_id text
    → 8 ≤ length begun
    → begun ≡ htonl req_id ++ (htonl (length text) ++ drop 8 begun)
unfolding htonl
header_prefix req_id text begun missing e h =
    sym (take-append-drop 8 begun)
    ∙ ap (λ (t : List ℕ). t ++ drop 8 begun) (sym (take-append 8 begun missing h) ∙ ap (take 8) e)

-- The data of a frame that was taken out.
pub payload-frame :
    (req_id len : ℕ) (text : List ℕ)
    → payload (record { req_id = req_id; len = len; bytes = frame req_id text }) ≡ text
unfolding payload htonl
payload-frame req_id len text = refl
