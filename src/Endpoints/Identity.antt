-- ===== src/Endpoints/Identity.antt =====
-- Identities in kernel/endpoint.c: the issuer never gives out an identity twice, so two endpoints that
-- are live together have two identities.
use jcos.Prelude.{
  ℕ, zero, suc, ◌^◌, ◌≤◌, ◌<◌, ◌≡◌, ◌≢◌, refl, sym, ◌∙◌, Bool, true, false, not, ◌&&◌, ◌||◌, ◌⊎◌,
  inl, inr, List, [], ◌∷◌, arith, ltb, ◌==◌, if◌then◌else◌, nonzero, set, length, Bool-cases,
}
use mathlib.Core.Bool.{false≢true}
use jcos.ObjectStorage.{
  occurrences, live-occurs, null_not_live, occurrences-register, occurrences-unregister,
  empty_slot_le, object_storage_find, object_storage_empty, storage_live, live-register,
  live-unregister,
}
use jcos.Kernel.{Kernel, Endpoint, IpcMessage}
use jcos.Endpoints.{
  endpoint_destroy, endpoint_create, endpoint_create_owned, endpoint_create_locked,
  endpoint_try_send, endpoint_try_receive, endpoint_usable, endpoint_idle, drop_endpoint,
  place_endpoint, put_endpoint, endpoint_live, message_max_words,
}

-- Where identities are issued below: the issuer, or past every word once it is exhausted.
pub issued_below : Kernel → ℕ
issued_below k = if nonzero k.next_endpoint_id then k.next_endpoint_id else 2 ^ 64

pub record IsNamed (k : Kernel) : Type 0 where
  pub word : k.next_endpoint_id < 2 ^ 64
  pub named :
      (e : ℕ)
      → endpoint_live k e ≡ true
      → (0 < (k.endpoints e).id) × ((k.endpoints e).id < issued_below k)
  pub once : (e : ℕ) → e ≢ 0 → occurrences k.endpoint_storage e ≤ 1
  pub distinct :
      (d e : ℕ)
      → endpoint_live k d ≡ true
      → endpoint_live k e ≡ true
      → (k.endpoints d).id ≡ (k.endpoints e).id
      → d ≡ e

place-IsNamed :
    (k : Kernel) (e owner : ℕ)
    → IsNamed k
    → endpoint_live k e ≡ false
    → object_storage_empty k.endpoint_storage < length k.endpoint_storage
    → 0 < k.next_endpoint_id
    → IsNamed (place_endpoint k e owner)
unfolding place_endpoint issued_below
place-IsNamed k e owner v dead room nz =
    let named : (d : ℕ)
        → endpoint_live (place_endpoint k e owner) d ≡ true
        → (endpoint_live k d ≡ true) ⊎ (e ≡ d) =
      λ d live. live-register k.endpoint_storage e d room live in
    record {
      word = omega arith;
      named = λ d live. elim (Bool-cases (e == d)) [
        | inl new ↦ ground arith
        | inr old ↦ elim (named d live) [
          | inl before ↦ ground (arith, v.named d before, v.word)
          | inr same ↦ absurd (ground arith)
        ]
      ];
      once = λ d ne. ground (
        arith,
        occurrences-register k.endpoint_storage e d room ne,
        v.once d ne,
        live-occurs k.endpoint_storage d ne,
      );
      distinct = λ c d live_c live_d same. elim (named c live_c) [
        | inr new_c ↦ elim (named d live_d) [
          | inr new_d ↦ sym new_c ∙ new_d
          | inl old_d ↦ ground (arith, v.named d old_d)
        ]
        | inl old_c ↦ elim (named d live_d) [
          | inr new_d ↦ ground (arith, v.named c old_c)
          | inl old_d ↦ ground (arith, v.distinct c d old_c old_d)
        ]
      ];
    }

-- An endpoint registered once is not registered after its removal.
dropped :
    (slots : List ℕ) (e d : ℕ)
    → ((a : ℕ) → a ≢ 0 → occurrences slots a ≤ 1)
    → storage_live slots e ≡ true
    → storage_live (set slots (object_storage_find slots e) 0) d ≡ true
    → (storage_live slots d ≡ true) × ((e == d) ≡ false)
dropped slots e zero once l m =
    absurd (false≢true (sym (null_not_live (set slots (object_storage_find slots e) 0)) ∙ m))
dropped slots e (suc d) once l m =
    let nz : suc d ≢ 0 = omega arith in
    (
      live-unregister slots e (suc d) l m,
      ground (
        arith,
        occurrences-unregister slots e (suc d) l nz,
        once (suc d) nz,
        live-occurs (set slots (object_storage_find slots e) 0) (suc d) nz,
      ),
    )

drop-IsNamed :
    (k : Kernel) (e : ℕ) → IsNamed k → endpoint_live k e ≡ true → IsNamed (drop_endpoint k e)
unfolding drop_endpoint issued_below
drop-IsNamed k e v live = record {
  word = v.word;
  named = λ d l.
      let (before, other) = dropped k.endpoint_storage e d v.once live l in
      rw other (v.named d before);
  once = λ d ne. ground (arith, occurrences-unregister k.endpoint_storage e d live ne, v.once d ne);
  distinct = λ c d l m same.
      let (before_c, other_c) = dropped k.endpoint_storage e c v.once live l in
      let (before_d, other_d) = dropped k.endpoint_storage e d v.once live m in
      v.distinct c d before_c before_d (rw (other_c, other_d) at same);
}

-- A store that keeps the identity of the endpoint.
put-IsNamed :
    (k : Kernel) (e : ℕ) (f : Endpoint)
    → IsNamed k
    → f.id ≡ (k.endpoints e).id
    → IsNamed (put_endpoint k e f)
unfolding put_endpoint issued_below
put-IsNamed k e f v same = record {
  word = v.word;
  named = λ d l. ground (arith, v.named d l);
  once = v.once;
  distinct = λ c d l m eq. v.distinct c d l m (ground arith);
}

-- One call of an entry that changes endpoints.
pub data EndpointCall : Type 0 where
  creates destroys receives : ℕ → EndpointCall
  creates_owned : ℕ → Bool → ℕ → EndpointCall
  sends : ℕ → IpcMessage → EndpointCall

unfoldable pub endpoint_step : Kernel → EndpointCall → Kernel
endpoint_step k (creates e) = (endpoint_create k e).0
endpoint_step k (destroys e) = (endpoint_destroy k e).0
endpoint_step k (receives e) = (endpoint_try_receive k e).0
endpoint_step k (creates_owned e capable owner) = (endpoint_create_owned k e capable owner).0
endpoint_step k (sends e m) = (endpoint_try_send k e m).0

unfoldable pub endpoint_run : Kernel → List EndpointCall → Kernel
endpoint_run k [] = k
endpoint_run k (c ∷ cs) = endpoint_run (endpoint_step k c) cs

usable_live : (k : Kernel) (e : ℕ) → endpoint_usable k e ≡ true → endpoint_live k e ≡ true
unfolding endpoint_usable
usable_live k e h = ground arith

create-IsNamed :
    (k : Kernel) (e owner : ℕ) → IsNamed k → IsNamed (endpoint_create_locked k e owner).0
unfolding endpoint_create_locked
create-IsNamed k e owner v =
    elim (Bool-cases (
      not k.endpoint_initialized
      || not (nonzero e)
      || not (nonzero k.next_endpoint_id)
      || endpoint_live k e)) [
        | inl refused ↦ rw refused v
        | inr ready ↦
            elim (Bool-cases
              (object_storage_empty k.endpoint_storage == length k.endpoint_storage)) [
                | inl full ↦ rw (ready, full) v
                | inr room ↦
                    rw (ready, room)
                      (place-IsNamed k e owner v (ground arith)
                        (ground (arith, empty_slot_le k.endpoint_storage)) (ground arith))
              ]
      ]

destroy-IsNamed : (k : Kernel) (e : ℕ) → IsNamed k → IsNamed (endpoint_destroy k e).0
unfolding endpoint_destroy
destroy-IsNamed k e v = elim (Bool-cases (endpoint_usable k e && endpoint_idle (k.endpoints e))) [
  | inl free ↦ rw free (drop-IsNamed k e v (usable_live k e (ground arith)))
  | inr held ↦ rw held v
]

send-IsNamed :
    (k : Kernel) (e : ℕ) (m : IpcMessage) → IsNamed k → IsNamed (endpoint_try_send k e m).0
unfolding endpoint_try_send
send-IsNamed k e m v = elim (Bool-cases (not (endpoint_usable k e) || (k.endpoints e).closed)) [
  | inl refused ↦ rw refused v
  | inr ready ↦
      elim (Bool-cases (not (nonzero m.word_count) || ltb message_max_words m.word_count)) [
        | inl bad ↦ rw (ready, bad) v
        | inr good ↦ elim (Bool-cases (k.endpoints e).message_ready) [
          | inl full ↦ rw (ready, good, full) v
          | inr room ↦ rw (ready, good, room) (put-IsNamed k e _ v refl)
        ]
      ]
]

receive-IsNamed : (k : Kernel) (e : ℕ) → IsNamed k → IsNamed (endpoint_try_receive k e).0
unfolding endpoint_try_receive
receive-IsNamed k e v = elim (Bool-cases (not (endpoint_usable k e) || (k.endpoints e).closed)) [
  | inl refused ↦ rw refused v
  | inr ready ↦ elim (Bool-cases (k.endpoints e).message_ready) [
    | inr empty ↦ rw (ready, empty) v
    | inl full ↦ rw (ready, full) (put-IsNamed k e _ v refl)
  ]
]

owned-IsNamed :
    (k : Kernel) (e : ℕ) (capable : Bool) (owner : ℕ)
    → IsNamed k
    → IsNamed (endpoint_create_owned k e capable owner).0
unfolding endpoint_create_owned
owned-IsNamed k e capable owner v = elim (Bool-cases (capable && nonzero owner)) [
  | inl granted ↦ rw granted (create-IsNamed k e owner v)
  | inr refused ↦ rw refused v
]

step-IsNamed : (k : Kernel) (c : EndpointCall) → IsNamed k → IsNamed (endpoint_step k c)
unfolding endpoint_step endpoint_create
step-IsNamed k (creates e) v = create-IsNamed k e 0 v
step-IsNamed k (destroys e) v = destroy-IsNamed k e v
step-IsNamed k (receives e) v = receive-IsNamed k e v
step-IsNamed k (creates_owned e capable owner) v = owned-IsNamed k e capable owner v
step-IsNamed k (sends e m) v = send-IsNamed k e m v

-- Whatever endpoints are created, destroyed and used, live endpoints keep pairwise different
-- identities, none of them zero and none issued again.
pub run-IsNamed : (k : Kernel) (cs : List EndpointCall) → IsNamed k → IsNamed (endpoint_run k cs)
unfolding endpoint_run
run-IsNamed k [] v = v
run-IsNamed k (c ∷ cs) v = run-IsNamed (endpoint_step k c) cs (step-IsNamed k c v)
