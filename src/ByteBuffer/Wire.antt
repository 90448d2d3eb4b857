-- ===== src/ByteBuffer/Wire.antt =====
-- src/common/packet/ByteBuffer.hpp: how one read sees a buffer cut at the read position.
use purity.Common.{
  ℕ, ◌+◌, ◌≤◌, ◌<◌, ◌^◌, ◌≡◌, refl, sym, ap, ap₂, ◌∙◌, List, [], ◌∷◌, ◌++◌, append_assoc,
  append-nil, ok, throw, length, take, drop, length-append, drop-append, take-append, le→leb, All,
  arith,
}
use purity.Exception.{not_enough_data}
use purity.Exception.Source.{ReadSource}
use purity.ByteBuffer.{ByteBuffer, check_read, copy_out}
use purity.ByteBuffer.Read.{read_nt_loop}

-- The buffer whose next bytes are `mid`, and the same buffer behind them.
abbrev pub before : List ℕ → List ℕ → List ℕ → ByteBuffer
before pre mid post = record { buffer = pre ++ (mid ++ post); read_pos = length pre }

abbrev pub behind : List ℕ → List ℕ → List ℕ → ByteBuffer
behind pre mid post = record { buffer = pre ++ (mid ++ post); read_pos = length pre + length mid }

-- The sizes of vectors are `size_t`.
abbrev pub Small : List ℕ → Type 0
Small bytes = length bytes < 2 ^ 64

pub check_read-ok :
    (n : ℕ) (source : ReadSource) (b : ByteBuffer)
    → Small b.buffer
    → b.read_pos + n ≤ length b.buffer
    → check_read n source b ≡ ok (tt, b)
unfolding check_read
check_read-ok n source b small h = ground arith

pub check_read-throw :
    (n : ℕ) (source : ReadSource) (b : ByteBuffer)
    → length b.buffer < b.read_pos + n
    → b.read_pos + n < 2 ^ 64
    → check_read n source b ≡ throw (not_enough_data source n b.read_pos (length b.buffer))
unfolding check_read
check_read-throw n source b h small = ground arith

pub copy_out-ok :
    (n : ℕ) (b : ByteBuffer)
    → b.read_pos + n ≤ length b.buffer
    → copy_out n b ≡ ok (take n (drop b.read_pos b.buffer), record b { read_pos = b.read_pos + n })
unfolding copy_out
copy_out-ok n b h = rw (le→leb _ _ h) refl

pub length-before :
    (pre mid post : List ℕ) → length (pre ++ (mid ++ post)) ≡ length pre + length mid + length post
length-before pre mid post = omega (arith, length-append pre (mid ++ post), length-append mid post)

pub check_read-before :
    (n : ℕ) (source : ReadSource) (pre mid post : List ℕ)
    → length mid ≡ n
    → Small (pre ++ (mid ++ post))
    → check_read n source (before pre mid post) ≡ ok (tt, before pre mid post)
check_read-before n source pre mid post e small =
    check_read-ok n source _ small (omega (arith, length-before pre mid post))

pub copy_out-before :
    (n : ℕ) (pre mid post : List ℕ)
    → length mid ≡ n
    → copy_out n (before pre mid post) ≡ ok (mid, behind pre mid post)
copy_out-before n pre mid post e = rw (
  copy_out-ok n (before pre mid post) (omega (arith, length-before pre mid post)),
  drop-append (length pre) pre (mid ++ post) refl,
  take-append n mid post e,
  ← e,
)

-- The end of one value is the start of the next.
pub behind-before :
    (pre mid next post : List ℕ) → behind pre mid (next ++ post) ≡ before (pre ++ mid) next post
behind-before pre mid next post =
    ap₂ (λ b n. record { buffer = b; read_pos = n }) (sym (append_assoc pre mid (next ++ post)))
      (sym (length-append pre mid))

pub behind-append :
    (pre mid next post : List ℕ) → behind (pre ++ mid) next post ≡ behind pre (mid ++ next) post
behind-append pre mid next post =
    ap₂ (λ b n. record { buffer = b; read_pos = n })
      (append_assoc pre mid (next ++ post) ∙ ap (λ r. pre ++ r) (sym (append_assoc mid next post)))
      (omega (arith, length-append pre mid, length-append mid next))

-- The loop stops at the first null byte, and reads it too.
pub read_nt_loop-append :
    (str rest acc : List ℕ) (pos : ℕ)
    → All (λ c. 0 < c) str
    → read_nt_loop (str ++ (0 ∷ rest)) acc pos ≡ (acc ++ str, pos + (length str + 1))
unfolding read_nt_loop
read_nt_loop-append [] rest acc pos h = rw (append-nil acc) refl
read_nt_loop-append (c ∷ str) rest acc pos h =
    let ih = read_nt_loop-append str rest (acc ++ (c ∷ [])) (pos + 1) h.1 in
    ground (arith, ih, h.0, append_assoc acc (c ∷ []) str)

-- Without one it reads everything.
pub read_nt_loop_all :
    (str acc : List ℕ) (pos : ℕ)
    → All (λ c. 0 < c) str
    → read_nt_loop str acc pos ≡ (acc ++ str, pos + length str)
unfolding read_nt_loop
read_nt_loop_all [] acc pos h = ground (arith, append-nil acc)
read_nt_loop_all (c ∷ str) acc pos h =
    let ih = read_nt_loop_all str (acc ++ (c ∷ [])) (pos + 1) h.1 in
    ground (arith, ih, h.0, append_assoc acc (c ∷ []) str)
