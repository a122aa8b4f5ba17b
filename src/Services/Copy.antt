-- ===== src/Services/Copy.antt =====
-- worker/utils/functions.go: ioCopy, the loop that carries one direction of a connection.
use subnetwork_system_torchl.Prelude.{
  ℕ, ◌+◌, ◌%◌, ◌^◌, ◌≡◌, refl, arith, Bool-cases, sym, ◌∙◌, append-nil, append_assoc, suc, map, inl,
  inr, Bool, true, false, List, [], ◌∷◌, ◌++◌, Option, none, some, if◌then◌else◌, ltb, ◌==◌, not,
}

pub data IoError : Type 0 where
  eof short_write : IoError
  other : ℕ → IoError

-- What one src.Read returned, and what the dst.Write of those bytes returned.
pub record Round : Type 0 where
  pub nr : ℕ
  pub er : Option IoError
  pub nw : ℕ
  pub ew : Option IoError

-- What a round counts: the argument of `fn`, or nothing.
unfoldable pub moved : Round → ℕ
moved r = if ltb 0 r.nr then r.nw else 0

read_stop : Option IoError → Option (Bool × IoError)
read_stop none = none
read_stop (some e) = some (true, e)

write_stop : Round → Option IoError → Option (Bool × IoError)
unfolding read_stop
write_stop r (some e) = some (false, e)
write_stop r none = if not (r.nr == r.nw) then some (false, short_write) else read_stop r.er

-- The `break` of a round: isSrcErr and err.
unfoldable pub stop : Round → Option (Bool × IoError)
unfolding write_stop read_stop
stop r = if ltb 0 r.nr then write_stop r r.ew else read_stop r.er

-- The three results of ioCopy, and the arguments that `fn` was called with.
pub record Copied : Type 0 where
  pub written : ℕ
  pub is_src_err : Bool
  pub err : Option IoError
  pub counted : List ℕ

-- `fn` is called for each Write that has written something.
abbrev counts : ℕ → List ℕ → List ℕ
counts n counted = if ltb 0 n then counted ++ n ∷ [] else counted

after : ℕ → List ℕ → Option (Bool × IoError) → Option Copied → Option Copied
after written counted none rest = rest
after written counted (some (src, e)) rest =
    some (record { written = written; is_src_err = src; err = some e; counted = counted })

-- The loop; none is a Read that has not returned yet. `written` is an int64, kept as its 64 bits.
unfoldable pub copy_from : ℕ → List ℕ → List Round → Option Copied
unfolding after
copy_from written counted [] = none
copy_from written counted (r ∷ rs) =
    let written' = (written + moved r) % 2 ^ 64 in
    let counted' = counts (moved r) counted in
    let rest = copy_from written' counted' rs in after written' counted' (stop r) rest

unfoldable pub io_copy : List Round → Option Copied
unfolding copy_from
io_copy rounds = copy_from 0 [] rounds

unfoldable pub sum : List ℕ → ℕ
sum [] = 0
sum (n ∷ ns) = n + sum ns

-- A round that writes the n bytes that it has read, without an error.
abbrev pub full : ℕ → Round
full n = record { nr = n; er = none; nw = n; ew = none }

-- How a round ends the loop: Read gives an error, the end of the stream included, perhaps with some
-- bytes, which are written; Write gives an error for what has been read; or Write gives none although
-- it has written less than that, by `missing` + 1 bytes.
pub data Last : Type 0 where
  read_fails : (bytes : ℕ) → IoError → Last
  write_fails : (read bytes : ℕ) → Option IoError → IoError → Last
  writes_less : (missing bytes : ℕ) → Option IoError → Last

abbrev pub last_round : Last → Round
last_round (read_fails bytes e) = record { nr = bytes; er = some e; nw = bytes; ew = none }
last_round (write_fails read bytes er e) = record {
  nr = suc read;
  er = er;
  nw = bytes;
  ew = some e;
}
last_round (writes_less missing bytes er) = record {
  nr = bytes + suc missing;
  er = er;
  nw = bytes;
  ew = none;
}

-- The bytes that such a round has written.
abbrev pub bytes_of : Last → ℕ
bytes_of (read_fails bytes e) = bytes
bytes_of (write_fails read bytes er e) = bytes
bytes_of (writes_less missing bytes er) = bytes

-- Whether the source is to blame, and the error.
abbrev pub reason : Last → Bool × IoError
reason (read_fails bytes e) = (true, e)
reason (write_fails read bytes er e) = (false, e)
reason (writes_less missing bytes er) = (false, short_write)

-- `fn` is called for what is more than nothing.
unfoldable pub nonzero : List ℕ → List ℕ
nonzero [] = []
nonzero (n ∷ ns) = if ltb 0 n then n ∷ nonzero ns else nonzero ns

counts-one : (n : ℕ) (counted : List ℕ) → counts n counted ≡ counted ++ nonzero (n ∷ [])
unfolding nonzero
counts-one n counted = elim (Bool-cases (ltb 0 n)) [
  | inl e ↦ rw e refl
  | inr e ↦ rw e (sym (append-nil counted))
]

counts-more :
    (n : ℕ) (counted ns : List ℕ) → counts n counted ++ nonzero ns ≡ counted ++ nonzero (n ∷ ns)
unfolding nonzero
counts-more n counted ns = elim (Bool-cases (ltb 0 n)) [
  | inl e ↦ rw e (append_assoc counted (n ∷ []) (nonzero ns))
  | inr e ↦ rw e refl
]

full-stop : (n : ℕ) → stop (full n) ≡ none
unfolding stop
full-stop n = ground arith

full-moved : (n : ℕ) → moved (full n) ≡ n
unfolding moved
full-moved n = ground arith

last-stop : (l : Last) → stop (last_round l) ≡ some (reason l)
unfolding stop
last-stop (read_fails bytes e) = ground arith
last-stop (write_fails read bytes er e) = ground arith
last-stop (writes_less missing bytes er) = ground arith

last-moved : (l : Last) → moved (last_round l) ≡ bytes_of l
unfolding moved
last-moved (read_fails bytes e) = ground arith
last-moved (write_fails read bytes er e) = ground arith
last-moved (writes_less missing bytes er) = ground arith

module _ (l : Last) (rest : List Round) where
  copy_from-last :
      (written : ℕ) (counted ns : List ℕ)
      → copy_from written counted (map full ns ++ last_round l ∷ rest)
        ≡ some (record {
          written = (written + (sum ns + bytes_of l)) % 2 ^ 64;
          is_src_err = (reason l).0;
          err = some (reason l).1;
          counted = counted ++ nonzero (ns ++ bytes_of l ∷ []);
        })
  unfolding copy_from sum
  copy_from-last written counted [] =
      let none_before : 0 + bytes_of l ≡ bytes_of l = omega arith in
      rw (last-stop l, last-moved l, counts-one (bytes_of l) counted, none_before) refl
  copy_from-last written counted (n ∷ ns) =
      let total : ((written + n) % 2 ^ 64 + (sum ns + bytes_of l)) % 2 ^ 64
          ≡ (written + (n + sum ns + bytes_of l)) % 2 ^ 64 =
        omega arith in
      rw
        (
          full-stop n,
          full-moved n,
          copy_from-last ((written + n) % 2 ^ 64) (counts n counted) ns,
          total,
          counts-more n counted (ns ++ bytes_of l ∷ []),
        )
        refl

copy_from-full :
    (written : ℕ) (counted ns : List ℕ) → copy_from written counted (map full ns) ≡ none
unfolding copy_from
copy_from-full written counted [] = refl
copy_from-full written counted (n ∷ ns) =
    rw (full-stop n, full-moved n) (copy_from-full ((written + n) % 2 ^ 64) (counts n counted) ns)

-- As long as every Read gives bytes or nothing and every Write takes all of them, ioCopy goes on. The
-- first round that is different ends it, whatever would follow: at an error of Read, the orderly end
-- of the stream too, at an error of Write and at a Write of less than was read, each with its error and
-- with whether the source is to blame. `written` is, as 64 bits, all that was written until then, the
-- bytes of the last round included, and `fn` has been called with just these numbers, but for zeros.
pub io_copy-last :
    (ns : List ℕ) (l : Last) (rest : List Round)
    → (io_copy (map full ns) ≡ none)
      × (io_copy (map full ns ++ last_round l ∷ rest)
          ≡ some (record {
            written = (sum ns + bytes_of l) % 2 ^ 64;
            is_src_err = (reason l).0;
            err = some (reason l).1;
            counted = nonzero (ns ++ bytes_of l ∷ []);
          }))
unfolding io_copy
io_copy-last ns l rest =
    let none_before : 0 + (sum ns + bytes_of l) ≡ sum ns + bytes_of l = omega arith in
    (copy_from-full 0 [] ns, copy_from-last l rest 0 [] ns ∙ rw none_before refl)
