-- ===== src/RaftNode/Observing.antt =====
-- What a node reports: the leader notifications, and the term.
use mathlib.Core.List.{append_assoc, append-nil}
use go_cluster.Prelude.{
  true, false, ℕ, ◌≤◌, ◌<◌, ◌^◌, List, [], ◌∷◌, ◌++◌, length, length-append, ◌≡◌, refl, arith, ltb,
  take, take-short, take-full, Bool-cases, inl, inr, some, codes, text_is_eq, sym, ◌∙◌, ap,
}
use go_cluster.GoMap.{lookup}
use go_cluster.Consensus.{LeaderInfo}
use go_cluster.Channel.{Chan, pushed}
use go_cluster.Cluster.Disk.{format_uint}
use go_cluster.Cluster.Disk.Decimals.{parse_uint-format_uint}
use go_cluster.RaftNode.{Library, Node, emit_leader, term}

module _ {ℓ} {A : Type ℓ} where
  push_all : List A → Chan A → Chan A
  push_all [] c = c
  push_all (a ∷ l) c = push_all l (pushed a c)

  pushed-room :
      (a : A) (c : Chan A)
      → ltb (length c.items) c.capacity ≡ true
      → pushed a c ≡ record c { items = c.items ++ a ∷ [] }
  unfolding pushed
  pushed-room a c e = rw e refl

  pushed-full : (a : A) (c : Chan A) → ltb (length c.items) c.capacity ≡ false → pushed a c ≡ c
  unfolding pushed
  pushed-full a c e = rw e refl

  push_all-take :
      (l : List A) (c : Chan A)
      → length c.items ≤ c.capacity
      → (push_all l c).items ≡ take c.capacity (c.items ++ l)
  unfolding push_all
  push_all-take [] c h = rw (append-nil c.items) (sym (take-short c.capacity c.items h))
  push_all-take (a ∷ l) c h = elim (Bool-cases (ltb (length c.items) c.capacity)) [
    | inl e ↦
        (ap (λ d. (push_all l d).items) (pushed-room a c e)
          ∙ push_all-take l (record c { items = c.items ++ a ∷ [] })
              (ground (arith, length-append c.items (a ∷ [])))
          ∙ ap (take c.capacity) (append_assoc c.items (a ∷ []) l))
    | inr e ↦
        (ap (λ d. (push_all l d).items) (pushed-full a c e)
          ∙ push_all-take l c h
          ∙ take-full c.capacity c.items l (ground arith)
          ∙ sym (take-full c.capacity c.items (a ∷ l) (ground arith)))
  ]

module _ (lib : Library) where
  -- Notifications that come while nobody receives.
  unfoldable pub emit_all : List LeaderInfo → Node lib → Node lib
  emit_all [] n = n
  emit_all (li ∷ lis) n = emit_all lis (emit_leader lib li n)

  emit_all-push_all :
      (lis : List LeaderInfo) (n : Node lib) → (emit_all lis n).leader_ch ≡ push_all lis n.leader_ch
  unfolding emit_all emit_leader push_all
  emit_all-push_all [] n = refl
  emit_all-push_all (li ∷ lis) n = emit_all-push_all lis (emit_leader lib li n)

  -- While nobody receives, the channel keeps the oldest notifications up to its capacity, in their
  -- order, and drops the newer ones.
  pub emit_all-take :
      (lis : List LeaderInfo) (n : Node lib)
      → length n.leader_ch.items ≤ n.leader_ch.capacity
      → (emit_all lis n).leader_ch.items ≡ take n.leader_ch.capacity (n.leader_ch.items ++ lis)
  emit_all-take lis n h =
      ap (λ c. c.items) (emit_all-push_all lis n) ∙ push_all-take lis n.leader_ch h

  -- When Raft's statistics give its term in decimal, as they do, the node reports that term.
  pub term-format_uint :
      (n : Node lib) (r : lib.Raft) (t : ℕ)
      → n.raft ≡ some r
      → lookup (codes "current_term") (lib.stats r) ≡ some (format_uint t)
      → t < 2 ^ 64
      → term lib n ≡ t
  unfolding term
  term-format_uint n r t running told small =
      rw (term, running, told, parse_uint-format_uint t small) refl
