-- ===== src/Bridge/Frame/Exact.antt =====
-- What `_receive_exact` reads, however the bytes arrive.
use mathlib.Core.Path.{ap, sym}
use mathlib.Core.List.{append_assoc, append-nil}
use orch_kit.Prelude.{
  ℕ, zero, suc, ◌+◌, ◌-◌, ◌≤◌, ◌<◌, ◌≡◌, ◌≢◌, ◌∙◌, refl, Bool, true, false, List, [], ◌∷◌, ◌++◌,
  All, length, take, drop, leb, arith,
}
use orch_kit.Result.{Result, ok}
use orch_kit.Bridge.Frame.{Bytes, Answer, Socket, receive, least, empty_read}
use orch_kit.Bridge.Frame.Bytes.{length-++, take-++-drop, take-++, drop-++, length-drop}

-- No call of `recv` runs into its time limit.
abbrev pub IsPrompt : List Answer → Type 0
IsPrompt = All (λ a. a ≢ Answer.stalls)

-- The bytes of `body` are read, and those behind stay.
pub record Read (before : List Answer) (result body rest : Bytes)
    (outcome : Result (Bytes × Socket)) : Type 0 where
  pub later : List Answer
  pub is : outcome ≡ ok (result ++ body, record { pending = rest; answers = later })
  pub prompt : IsPrompt later
  pub enough : length before ≤ length later + length body

receive-done :
    (answers : List Answer) (pending result : Bytes) (size : ℕ) (clean_eof : Bool)
    → size ≤ length result
    → receive answers pending size clean_eof result
      ≡ ok (result, record { pending = pending; answers = answers })
unfolding receive
receive-done [] pending result size clean_eof h = ground (arith, h)
receive-done (Answer.stalls ∷ later) pending result size clean_eof h = ground (arith, h)
receive-done (Answer.gives k ∷ later) pending result size clean_eof h = ground (arith, h)

-- How much the call of `recv` may give.
abbrev pub share : ℕ → ℕ → Bytes → ℕ
share k size result = least (suc k) (size - length result)

pub share-bounds :
    (k size : ℕ) (result : Bytes)
    → length result < size
    → (1 ≤ share k size result) × (share k size result + length result ≤ size)
share-bounds k size result h = ground (arith, h)

module _ (k : ℕ) (later : List Answer) (pending result : Bytes) (size : ℕ) (clean_eof : Bool) where
  -- After a call of `recv` that gives a piece, the loop goes on behind it.
  receive-step :
      (b : ℕ) (bs : Bytes)
      → length result < size
      → take (share k size result) pending ≡ b ∷ bs
      → receive (Answer.gives k ∷ later) pending size clean_eof result
        ≡ receive later (drop (share k size result) pending) size clean_eof (result ++ b ∷ bs)
  unfolding receive
  receive-step b bs h e = go (leb size (length result)) refl (take (share k size result) pending) e
    where
      go :
          (done : Bool)
          → leb size (length result) ≡ done
          → (piece : Bytes) → piece ≡ b ∷ bs
          → elim done as (λ x. Result (Bytes × Socket)) [
            | true ↦ ok (result, record { pending = pending; answers = Answer.gives k ∷ later })
            | false ↦ elim piece as (λ x. Result (Bytes × Socket)) [
              | [] ↦ empty_read clean_eof result
              | c ∷ cs ↦
                  receive later
                    (drop (share k size result) pending)
                    size
                    clean_eof
                    (result ++ c ∷ cs)
            ]
          ]
            ≡ receive later (drop (share k size result) pending) size clean_eof (result ++ b ∷ bs)
      go true d piece f = ground (arith, d, h)
      go false d [] f = cc
      go false d (c ∷ cs) f =
          ap
            (λ xs. receive later (drop (share k size result) pending) size clean_eof (result ++ xs))
            f

take-cons : (n b : ℕ) (bs : Bytes) → 1 ≤ n → take n (b ∷ bs) ≡ b ∷ take (n - 1) bs
take-cons zero b bs h = ground arith
take-cons (suc n) b bs h = ap (λ m. b ∷ take m bs) (omega arith)

split_length : (n : ℕ) (body : Bytes) → length (take n body) + length (drop n body) ≡ length body
split_length n body = sym (length-++ (take n body) (drop n body)) ∙ ap length (take-++-drop n body)

rejoin : (n : ℕ) (result body : Bytes) → (result ++ take n body) ++ drop n body ≡ result ++ body
rejoin n result body =
    append_assoc result (take n body) (drop n body) ∙ ap (λ xs. result ++ xs) (take-++-drop n body)

receive-prompt :
    (k : ℕ) (later : List Answer) (body rest result : Bytes) (size : ℕ) (clean_eof : Bool)
    → length result < size
    → length result + length body ≡ size
    → receive (Answer.gives k ∷ later) (body ++ rest) size clean_eof result
      ≡ receive later
          (drop (share k size result) body ++ rest)
          size
          clean_eof
          (result ++ take (share k size result) body)
receive-prompt k later [] rest result size clean_eof h e = absurd (omega arith)
receive-prompt k later (b ∷ bs) rest result size clean_eof h e =
    let (one, few) = share-bounds k size result h in
    let n = share k size result in
    let body : Bytes = b ∷ bs in
    let fits : n ≤ length body = omega arith in
    let head = take-cons n b bs one in
    receive-step k later (body ++ rest) result size clean_eof b (take (n - 1) bs) h
      (take-++ n body rest fits ∙ head)
    ∙ ap (λ xs. receive later xs size clean_eof (result ++ b ∷ take (n - 1) bs))
        (drop-++ n body rest fits)
    ∙ ap (λ xs. receive later (drop n body ++ rest) size clean_eof (result ++ xs)) (sym head)

pub receive-Read :
    (answers : List Answer) (body rest result : Bytes) (size : ℕ) (clean_eof : Bool)
    → IsPrompt answers
    → length result + length body ≡ size
    → length body ≤ length answers
    → Read answers result body rest (receive answers (body ++ rest) size clean_eof result)
receive-Read answers [] rest result size clean_eof prompt e h = record {
  later = answers;
  is =
      receive-done answers rest result size clean_eof (omega arith)
      ∙ ap (λ xs. ok (xs, record { pending = rest; answers = answers })) (sym (append-nil result));
  prompt = prompt;
  enough = omega arith;
}
receive-Read [] (b ∷ bs) rest result size clean_eof prompt e h = absurd (omega arith)
receive-Read (Answer.stalls ∷ later) (b ∷ bs) rest result size clean_eof prompt e h =
    absurd (prompt.0 refl)
receive-Read (Answer.gives k ∷ later) (b ∷ bs) rest result size clean_eof prompt e h =
    let body : Bytes = b ∷ bs in
    let short : length result < size = omega arith in
    let n = share k size result in
    let (one, few) = share-bounds k size result short in
    let whole = split_length n body in
    let dropped = length-drop n body in
    let grown = length-++ result (take n body) in
    let found =
      receive-Read later (drop n body) rest (result ++ take n body) size clean_eof prompt.1
        (omega arith) (omega arith) in
    record {
      later = found.later;
      is =
          receive-prompt k later body rest result size clean_eof short e
          ∙ found.is
          ∙ ap (λ xs. ok (xs, record { pending = rest; answers = found.later }))
              (rejoin n result body);
      prompt = found.prompt;
      enough = omega (arith, found.enough);
    }
