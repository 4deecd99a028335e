-- ===== src/Tunnel/Buffers.antt =====
-- pkg/tunnel/manager.go: `BufferManager`, a pool of zeroed buffers in a bounded channel.
use cloudbridge_client.Prelude.{
  ℕ, zero, suc, ◌≤◌, ◌<◌, ◌≡◌, refl, sym, ap, ◌∙◌, arith, List, [], ◌∷◌, ◌++◌, length, replicate,
  ltb, if◌then◌else◌, All, All-append, length-append, length-replicate, inl, inr, Bool-cases,
}

-- A buffer is its bytes; the channel hands them out in the order in which they came.
pub record BufferManager : Type 0 where
  pub buffer_size : ℕ
  pub max_buffers : ℕ
  pub pool : List (List ℕ)

-- `make([]byte, n)`
abbrev pub make_bytes : ℕ → List ℕ
make_bytes n = replicate n 0

-- `NewBufferManager`: the pool is filled at once.
unfoldable pub new_buffer_manager : ℕ → ℕ → BufferManager
new_buffer_manager buffer_size max_buffers = record {
  buffer_size = buffer_size;
  max_buffers = max_buffers;
  pool = replicate max_buffers (make_bytes buffer_size);
}

take_from : List (List ℕ) → BufferManager → List ℕ × BufferManager
take_from [] bm = (make_bytes bm.buffer_size, bm)
take_from (buf ∷ rest) bm = (buf, record bm { pool = rest })

-- `GetBuffer`: the first of the pool or, if it is empty, a new one.
unfoldable pub get_buffer : BufferManager → List ℕ × BufferManager
unfolding take_from
get_buffer bm = take_from bm.pool bm

-- The loop that resets a buffer.
unfoldable pub zero_out : List ℕ → List ℕ
zero_out [] = []
zero_out (b ∷ bs) = 0 ∷ zero_out bs

-- `ReturnBuffer`: reset, and kept unless the pool is full.
unfoldable pub return_buffer : List ℕ → BufferManager → BufferManager
unfolding zero_out
return_buffer buf bm =
    if ltb (length bm.pool) bm.max_buffers
    then record bm { pool = bm.pool ++ zero_out buf ∷ [] }
    else bm

zero_out-eq : (buf : List ℕ) → zero_out buf ≡ make_bytes (length buf)
unfolding zero_out
zero_out-eq [] = refl
zero_out-eq (b ∷ bs) = ap (◌∷◌ 0) (zero_out-eq bs)

-- The pool is within its bound and holds zeroed buffers of the right size.
pub record IsClean (bm : BufferManager) : Type 0 where
  pub bounded : length bm.pool ≤ bm.max_buffers
  pub zeroed : All (λ buf. buf ≡ make_bytes bm.buffer_size) bm.pool

replicate-All : (n : ℕ) (buf : List ℕ) → All (λ b. b ≡ buf) (replicate n buf)
replicate-All zero buf = tt
replicate-All (suc n) buf = (refl, replicate-All n buf)

new-IsClean : (size limit : ℕ) → IsClean (new_buffer_manager size limit)
unfolding new_buffer_manager
new-IsClean size limit = record {
  bounded = omega (arith, length-replicate limit (make_bytes size));
  zeroed = replicate-All limit (make_bytes size);
}

take_from-IsClean :
    (pool : List (List ℕ)) (bm : BufferManager)
    → IsClean bm
    → length pool ≤ bm.max_buffers
    → All (λ buf. buf ≡ make_bytes bm.buffer_size) pool
    → ((take_from pool bm).0 ≡ make_bytes bm.buffer_size) × IsClean (take_from pool bm).1
unfolding take_from
take_from-IsClean [] bm c b z = (refl, c)
take_from-IsClean (buf ∷ rest) bm c b z = (z.0, record { bounded = omega arith; zeroed = z.1 })

-- From a clean pool `GetBuffer` hands out a zeroed buffer of the full size, from the pool or new,
-- and leaves the pool clean.
get_buffer-IsClean :
    (bm : BufferManager)
    → IsClean bm
    → ((get_buffer bm).0 ≡ make_bytes bm.buffer_size) × IsClean (get_buffer bm).1
unfolding get_buffer
get_buffer-IsClean bm c = take_from-IsClean bm.pool bm c c.bounded c.zeroed

-- Returning a buffer of the full size, whatever was written to it, leaves the pool clean.
return_buffer-IsClean :
    (buf : List ℕ) (bm : BufferManager)
    → length buf ≡ bm.buffer_size
    → IsClean bm
    → IsClean (return_buffer buf bm)
unfolding return_buffer
return_buffer-IsClean buf bm e c = elim (Bool-cases (ltb (length bm.pool) bm.max_buffers)) [
  | inl room ↦
      let room' : length bm.pool < bm.max_buffers = ground arith in
      rw (room, return_buffer)
        (record {
          bounded = omega (arith, length-append bm.pool (zero_out buf ∷ []));
          zeroed =
              All-append (λ b. b ≡ make_bytes bm.buffer_size) bm.pool (zero_out buf ∷ []) c.zeroed
                (zero_out-eq buf ∙ ap make_bytes e, tt);
        })
  | inr full ↦ rw (full, return_buffer) c
]

-- The uses of a pool: a connection takes a buffer, or gives one back with what it wrote there.
pub data Op : Type 0 where
  take_one : Op
  give_back : List ℕ → Op

-- The buffers handed out, in order, and the pool at the end.
unfoldable pub run : List Op → BufferManager → List (List ℕ) × BufferManager
run [] bm = ([], bm)
run (take_one ∷ ops) bm =
    let (buf, bm') = get_buffer bm in let (bufs, last) = run ops bm' in (buf ∷ bufs, last)
run (give_back buf ∷ ops) bm = run ops (return_buffer buf bm)

-- What is given back is as long as what was taken.
abbrev pub Sized : ℕ → List Op → Type 0
Sized n [] = Unit
Sized n (take_one ∷ ops) = Sized n ops
Sized n (give_back buf ∷ ops) = (length buf ≡ n) × Sized n ops

size_take :
    (pool : List (List ℕ)) (bm : BufferManager) → (take_from pool bm).1.buffer_size ≡ bm.buffer_size
unfolding take_from
size_take [] bm = refl
size_take (buf ∷ rest) bm = refl

size-new : (size limit : ℕ) → (new_buffer_manager size limit).buffer_size ≡ size
unfolding new_buffer_manager
size-new size limit = refl

size-get : (bm : BufferManager) → (get_buffer bm).1.buffer_size ≡ bm.buffer_size
unfolding get_buffer
size-get bm = size_take bm.pool bm

size-return :
    (buf : List ℕ) (bm : BufferManager) → (return_buffer buf bm).buffer_size ≡ bm.buffer_size
unfolding return_buffer
size-return buf bm = ground arith

run-IsClean :
    (n : ℕ) (ops : List Op) (bm : BufferManager)
    → bm.buffer_size ≡ n
    → Sized n ops
    → IsClean bm
    → All (λ buf. buf ≡ make_bytes n) (run ops bm).0 × IsClean (run ops bm).1
unfolding run
run-IsClean n [] bm e s c = (tt, c)
run-IsClean n (take_one ∷ ops) bm e s c =
    let (zeroed, clean) = get_buffer-IsClean bm c in
    let (rest, end) = run-IsClean n ops (get_buffer bm).1 (size-get bm ∙ e) s clean in
    ((zeroed ∙ ap make_bytes e, rest), end)
run-IsClean n (give_back buf ∷ ops) bm e s c =
    run-IsClean n ops (return_buffer buf bm) (size-return buf bm ∙ e) s.1
      (return_buffer-IsClean buf bm (s.0 ∙ sym e) c)

-- No data passes from one connection to another through the pool: every buffer that is ever handed
-- out is zeroed and of full size, as long as each is returned at its length, whatever was written to
-- it; and the pool never exceeds its bound.
pub buffers_carry_no_data :
    (size limit : ℕ) (ops : List Op)
    → Sized size ops
    → let (bufs, bm) = run ops (new_buffer_manager size limit) in
      All (λ buf. buf ≡ make_bytes size) bufs × (length bm.pool ≤ bm.max_buffers)
buffers_carry_no_data size limit ops s =
    let (zeroed, clean) =
      run-IsClean size ops (new_buffer_manager size limit) (size-new size limit) s
        (new-IsClean size limit) in
    (zeroed, clean.bounded)
