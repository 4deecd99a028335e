-- ===== src/Tunnel/Copy.antt =====
-- pkg/tunnel/manager.go: the loop that copies one direction of a connection, and the choice of the
-- hop that a connection is dialled to.
use Prim.Native.String.{String}
use text.Mathlib.Text.{◌==◌ as str_eq}
use cloudbridge_client.Prelude.{
  ℕ, ◌+◌, ◌≡◌, refl, sym, ◌∙◌, ap, arith, Bool, true, false, List, [], ◌∷◌, ◌++◌, length,
  length-append, take, if◌then◌else◌,
}
use mathlib.Core.List.{append-nil, append_assoc}
use cloudbridge_client.Tunnel.Registry.{Tunnel}

-- `if tunnel.RelayEndpoint != "" { target = tunnel.RelayEndpoint }`; `join_host_port` is
-- `net.JoinHostPort` after `strconv.Itoa`.
unfoldable pub dial_target : (Tunnel → String) → Tunnel → String
dial_target join_host_port t =
    if str_eq t.relay_endpoint "" then join_host_port t else t.relay_endpoint

-- One round of the loop: `Read` fails, or it fills the buffer with some bytes, of which `Write` takes the
-- first so many; the Boolean is whether it reports no error.
pub data Round : Type 0 where
  read_failed : Round
  read_chunk : List ℕ → ℕ → Bool → Round

-- The state of the loop: the bytes that the other side took, and the counts handed to
-- `UpdateBytesTransferred`, the latest first.
pub record Copied : Type 0 where
  pub delivered : List ℕ
  pub counted : List ℕ
  pub finished : Bool

-- The loop, on the rounds that the connections answer; `finished` is the send on `done`.
unfoldable pub copy_loop : List Round → Copied → Copied
copy_loop [] c = c
copy_loop (read_failed ∷ rounds) c = record c { finished = true }
copy_loop (read_chunk [] n good ∷ rounds) c = copy_loop rounds c
copy_loop (read_chunk (b ∷ bs) n true ∷ rounds) c =
    copy_loop rounds (record c {
      delivered = c.delivered ++ take n (b ∷ bs);
      counted = length (b ∷ bs) ∷ c.counted;
    })
copy_loop (read_chunk (b ∷ bs) n false ∷ rounds) c = record c {
  delivered = c.delivered ++ take n (b ∷ bs);
  finished = true;
}

abbrev pub nothing_copied : Copied
nothing_copied = record { delivered = []; counted = []; finished = false }

abbrev pub sum : List ℕ → ℕ
sum [] = 0
sum (n ∷ ns) = n + sum ns

-- Rounds without a failure: a `Write` that reports none has taken all, as `io.Writer` promises.
abbrev pub fine : List (List ℕ) → List Round
fine [] = []
fine (bs ∷ chunks) = read_chunk bs (length bs) true ∷ fine chunks

abbrev pub joined : List (List ℕ) → List ℕ
joined [] = []
joined (bs ∷ chunks) = bs ++ joined chunks

-- A failed read, or a failed write of some bytes, and those of them that still got through.
abbrev pub Stops : Round → Type 0
Stops read_failed = Unit
Stops (read_chunk [] n good) = ⊥
Stops (read_chunk (b ∷ bs) n true) = ⊥
Stops (read_chunk (b ∷ bs) n false) = Unit

abbrev pub partial : Round → List ℕ
partial read_failed = []
partial (read_chunk bs n good) = take n bs

take-length : (bs : List ℕ) → take (length bs) bs ≡ bs
take-length [] = refl
take-length (b ∷ bs) = ap (λ x. b ∷ x) (take-length bs)

copy_loop-stop :
    (stop : Round) (later : List Round) (c : Copied)
    → Stops stop
    → copy_loop (stop ∷ later) c
      ≡ record c { delivered = c.delivered ++ partial stop; finished = true }
unfolding copy_loop
copy_loop-stop read_failed later c h = rw (append-nil c.delivered) refl
copy_loop-stop (read_chunk [] n good) later c h = absurd h
copy_loop-stop (read_chunk (b ∷ bs) n true) later c h = absurd h
copy_loop-stop (read_chunk (b ∷ bs) n false) later c h = refl

copy_loop_from :
    (chunks : List (List ℕ)) (stop : Round) (later : List Round) (c : Copied)
    → Stops stop
    → ((copy_loop (fine chunks ++ stop ∷ later) c).delivered
        ≡ c.delivered ++ (joined chunks ++ partial stop))
      × (sum (copy_loop (fine chunks ++ stop ∷ later) c).counted
          ≡ sum c.counted + length (joined chunks))
      × ((copy_loop (fine chunks ++ stop ∷ later) c).finished ≡ true)
unfolding copy_loop
copy_loop_from [] stop later c h = rw (copy_loop-stop stop later c h) (refl, omega arith, refl)
copy_loop_from ([] ∷ chunks) stop later c h = copy_loop_from chunks stop later c h
copy_loop_from ((b ∷ bs) ∷ chunks) stop later c h =
    let c' : Copied = record c {
      delivered = c.delivered ++ take (length (b ∷ bs)) (b ∷ bs);
      counted = length (b ∷ bs) ∷ c.counted;
    } in
    let (d, n, f) = copy_loop_from chunks stop later c' h in
    (
      d
          ∙ ap (λ x. (c.delivered ++ x) ++ (joined chunks ++ partial stop)) (take-length (b ∷ bs))
          ∙ append_assoc c.delivered (b ∷ bs) (joined chunks ++ partial stop)
          ∙ ap (λ x. c.delivered ++ x) (sym (append_assoc (b ∷ bs) (joined chunks) (partial stop))),
      omega (arith, n, length-append (b ∷ bs) (joined chunks)),
      f,
    )

-- After chunks that were read and written without a failure, in any number, and then a failed read or a
-- failed write, the loop is over: the other side has exactly the bytes of these chunks, in their order and
-- once each, and after them what the failed write still took; and the bytes counted are those of the
-- chunks, without what the failed write took.
pub copy_loop-delivers :
    (chunks : List (List ℕ)) (stop : Round) (later : List Round)
    → Stops stop
    → let c = copy_loop (fine chunks ++ stop ∷ later) nothing_copied in
      (c.delivered ≡ joined chunks ++ partial stop)
      × (sum c.counted ≡ length (joined chunks))
      × (c.finished ≡ true)
copy_loop-delivers chunks stop later h =
    let (d, n, f) = copy_loop_from chunks stop later nothing_copied h in (d, omega (arith, n), f)
