-- ===== src/Bridge/Frame/Taken.antt =====
-- What a read that ends well took from a stream.
use mathlib.Core.Path.{ap, sym}
use mathlib.Core.List.{append_assoc, append-nil}
use orch_kit.Prelude.{
  ℕ, ◌≤◌, ◌<◌, ◌≡◌, ◌∙◌, refl, Bool, true, false, Bool-cases, inl, inr, ◌⊎◌, List, [], ◌∷◌, ◌++◌,
  length, take, drop, leb, arith,
}
use orch_kit.Result.{Result, ok}
use orch_kit.Bridge.Frame.{Bytes, Answer, Socket, receive, empty_read}
use orch_kit.Bridge.Frame.Bytes.{length-++, take-++-drop, length-take-le}
use orch_kit.Bridge.Frame.Exact.{share, share-bounds}

-- What a read that ends well took from the stream.
pub record Taken (pending result : Bytes) (size : ℕ) (got : Bytes) (after : Socket) : Type 0 where
  pub body : Bytes
  pub stream : pending ≡ body ++ after.pending
  pub held : got ≡ result ++ body
  pub full : length got ≡ size

abbrev stop : Bytes → List Answer → Bytes → Bytes × Socket
stop pending answers result = (result, record { pending = pending; answers = answers })

Taken-done :
    (pending result got : Bytes) (size : ℕ) (answers : List Answer) (after : Socket)
    → length result ≤ size
    → size ≤ length result
    → ok (stop pending answers result) ≡ ok (got, after)
    → Taken pending result size got after
Taken-done pending result got size answers after small big e = record {
  body = [];
  stream = ground (arith, e);
  held = ground (arith, e, append-nil result);
  full = ground (arith, e);
}

empty_read_fails :
    (clean_eof : Bool) (result got : Bytes) (after : Socket)
    → empty_read clean_eof result ≡ ok (got, after)
    → ⊥
empty_read_fails true [] got after h = cc
empty_read_fails true (b ∷ bs) got after h = cc
empty_read_fails false result got after h = cc

Taken-later :
    (n : ℕ) (pending result got : Bytes) (size : ℕ) (after : Socket)
    → Taken (drop n pending) (result ++ take n pending) size got after
    → Taken pending result size got after
Taken-later n pending result got size after t = record {
  body = take n pending ++ t.body;
  stream =
      sym (take-++-drop n pending)
      ∙ ap (λ xs. take n pending ++ xs) t.stream
      ∙ sym (append_assoc (take n pending) t.body after.pending);
  held = t.held ∙ append_assoc result (take n pending) t.body;
  full = t.full;
}

-- Either the read stops, or a piece comes and it goes on.
receive-eq-ok :
    (k : ℕ) (later : List Answer) (pending result got : Bytes) (size : ℕ) (clean_eof : Bool)
    (after : Socket)
    → receive (Answer.gives k ∷ later) pending size clean_eof result ≡ ok (got, after)
    → ((size ≤ length result)
        × (ok (stop pending (Answer.gives k ∷ later) result) ≡ ok (got, after)))
      ⊎ ((length result < size)
          × (receive later
                (drop (share k size result) pending)
                size
                clean_eof
                (result ++ take (share k size result) pending)
              ≡ ok (got, after)))
unfolding receive
receive-eq-ok k later pending result got size clean_eof after h =
    go (leb size (length result)) refl (take n pending) refl h
  where
    n : ℕ
    n = share k size result

    go :
        (done : Bool)
        → leb size (length result) ≡ done
        → (piece : Bytes) → take n pending ≡ piece
        → elim done as (λ x. Result (Bytes × Socket)) [
          | true ↦ ok (result, record { pending = pending; answers = Answer.gives k ∷ later })
          | false ↦ elim piece as (λ x. Result (Bytes × Socket)) [
            | [] ↦ empty_read clean_eof result
            | b ∷ bs ↦ receive later (drop n pending) size clean_eof (result ++ b ∷ bs)
          ]
        ]
          ≡ ok (got, after)
        → ((size ≤ length result)
            × (ok (stop pending (Answer.gives k ∷ later) result) ≡ ok (got, after)))
          ⊎ ((length result < size)
              × (receive later (drop n pending) size clean_eof (result ++ take n pending)
                  ≡ ok (got, after)))
    go true d piece f j = inl (ground (arith, d), j)
    go false d [] f j = absurd (empty_read_fails clean_eof result got after j)
    go false d (b ∷ bs) f j = inr (
      ground (arith, d),
      ap (λ xs. receive later (drop n pending) size clean_eof (result ++ xs)) f ∙ j,
    )

pub receive-Taken :
    (answers : List Answer) (pending result got : Bytes) (size : ℕ) (clean_eof : Bool)
    (after : Socket)
    → length result ≤ size
    → receive answers pending size clean_eof result ≡ ok (got, after)
    → Taken pending result size got after
unfolding receive
receive-Taken [] pending result got size clean_eof after small h =
    elim (Bool-cases (leb size (length result))) [
      | inl e ↦
          Taken-done pending result got size [] after small (ground (arith, e))
            (ground (arith, e, h))
      | inr e ↦ ground (arith, e, h)
    ]
receive-Taken (Answer.stalls ∷ later) pending result got size clean_eof after small h =
    elim (Bool-cases (leb size (length result))) [
      | inl e ↦
          Taken-done pending result got size (Answer.stalls ∷ later) after small (ground (arith, e))
            (ground (arith, e, h))
      | inr e ↦ ground (arith, e, h)
    ]
receive-Taken (Answer.gives k ∷ later) pending result got size clean_eof after small h =
    elim (receive-eq-ok k later pending result got size clean_eof after h) [
      | inl (big, e) ↦ Taken-done pending result got size (Answer.gives k ∷ later) after small big e
      | inr (short, e) ↦
          let n = share k size result in
          let (one, few) = share-bounds k size result short in
          let grown = length-++ result (take n pending) in
          let fits = length-take-le n pending in
          Taken-later n pending result got size after (
            receive-Taken later (drop n pending) (result ++ take n pending) got size clean_eof after
              (omega arith) e)
    ]
