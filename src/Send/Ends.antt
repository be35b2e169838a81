-- ===== src/Send/Ends.antt =====
-- A list of packets with a changed or a further packet at its end.
use mathlib.Core.List.{append-nil, append_assoc}
use dokevi_network.Prelude.{
  ℕ, suc, ◌+◌, ◌≡◌, refl, sym, ap, ap₂, ◌∙◌, List, [], ◌∷◌, ◌++◌, arith, Option, length,
}
use dokevi_network.Pool.{Pointer}
use dokevi_network.Send.Chain.{
  Key, Entry, keys, head_or, IsFirstSent, content, contents, pending, keys-append, contents-append,
}

pub head_or-same :
    (ks : List Key) (k : Key) (r r' : List Key) (z z' : Option Pointer)
    → head_or (ks ++ (k ∷ r)) z ≡ head_or (ks ++ (k ∷ r')) z'
head_or-same [] k r r' z z' = refl
head_or-same (j ∷ ks) k r r' z z' = refl

pub keys-two :
    (xs : List Entry) (l l' f : Entry)
    → l'.key ≡ l.key
    → keys (xs ++ (l' ∷ f ∷ [])) ≡ keys (xs ++ (l ∷ [])) ++ (f.key ∷ [])
keys-two xs l l' f e =
    keys-append xs (l' ∷ f ∷ [])
    ∙ ap (λ k. keys xs ++ (k ∷ f.key ∷ [])) e
    ∙ sym (append_assoc (keys xs) (l.key ∷ []) (f.key ∷ []))
    ∙ ap (λ ks. ks ++ (f.key ∷ [])) (sym (keys-append xs (l ∷ [])))

pub pending-two :
    (xs : List Entry) (l l' f : Entry)
    → content l' ≡ content l
    → pending (xs ++ (l' ∷ f ∷ [])) ≡ pending (xs ++ (l ∷ [])) ++ content f
pending-two [] l l' f e = append-nil (content f)
pending-two (x ∷ xs) l l' f e =
    contents-append xs (l' ∷ f ∷ [])
    ∙ ap₂ (λ c g. contents xs ++ (c ++ g)) e (append-nil (content f))
    ∙ sym (append_assoc (contents xs) (content l) (content f))
    ∙ ap (λ c. c ++ content f)
        (ap (λ c. contents xs ++ c) (sym (append-nil (content l)))
          ∙ sym (contents-append xs (l ∷ [])))

pub pending-longer :
    (x : Entry) (xs : List Entry) (l l' : Entry) (m : List ℕ)
    → content l' ≡ content l ++ m
    → pending (x ∷ (xs ++ (l' ∷ []))) ≡ pending (x ∷ (xs ++ (l ∷ []))) ++ m
pending-longer x xs l l' m e =
    contents-append xs (l' ∷ [])
    ∙ ap (λ c. contents xs ++ (c ++ [])) e
    ∙ ap (λ c. contents xs ++ c)
        (append-nil (content l ++ m) ∙ ap (λ c. c ++ m) (sym (append-nil (content l))))
    ∙ sym (append_assoc (contents xs) (content l ++ []) m)
    ∙ ap (λ c. c ++ m) (sym (contents-append xs (l ∷ [])))

pub length-two :
    (xs : List Entry) (l l' f : Entry) → length (xs ++ (l' ∷ f ∷ [])) ≡ length (xs ++ (l ∷ [])) + 1
length-two [] l l' f = refl
length-two (x ∷ xs) l l' f = omega (arith, length-two xs l l' f)

pub length-one :
    (xs : List Entry) (l l' : Entry) → length (xs ++ (l' ∷ [])) ≡ length (xs ++ (l ∷ []))
length-one [] l l' = refl
length-one (x ∷ xs) l l' = ap suc (length-one xs l l')

pub IsFirstSent-two :
    (xs : List Entry) (l l' f : Entry)
    → l'.packet.is_sending ≡ l.packet.is_sending
    → IsFirstSent (xs ++ (l ∷ []))
    → IsFirstSent (xs ++ (l' ∷ f ∷ []))
IsFirstSent-two [] l l' f e h = e ∙ h
IsFirstSent-two (x ∷ xs) l l' f e h = h
