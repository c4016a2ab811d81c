-- ===== src/Json/RoundTrip.antt =====
-- A map is read back as it was written.
use zdash.Prelude.{
  ◌≡◌, refl, ap, sym, ◌∙◌, [], ◌∷◌, ◌++◌, append_assoc, append-nil, Option, none, some, Bytes, All,
}
use zdash.Json.Maps.{Dict, AllBefore, StartsBehind, IsAscending, put-last, AllBefore-concat}
use zdash.Json.Values.{Json, put_members, decode_map, encode_members, encode_map}

module _ {ℓ} {V : Type ℓ} where
  -- All keys of the first stand before those of the second.
  abbrev pub Precedes : Dict V → Dict V → Type 0
  Precedes done [] = Unit
  Precedes done ((k, v) ∷ m) = AllBefore done k

  pub Precedes-nil : (m : Dict V) → Precedes [] m
  Precedes-nil [] = tt
  Precedes-nil ((k, v) ∷ m) = tt

  pub Precedes-concat :
      (done : Dict V) (k : Bytes) (v : V) (m : Dict V)
      → AllBefore done k
      → StartsBehind k m
      → Precedes (done ++ (k, v) ∷ []) m
  Precedes-concat done k v [] h a = tt
  Precedes-concat done k v ((j, w) ∷ m) h a = AllBefore-concat done k j v a h

module _ {ℓ} {V : Type ℓ} (elem : Json → Option V) (encode : V → Json) where
  -- Each element is read back as it was written.
  abbrev pub ReadsBack : Dict V → Type ℓ
  ReadsBack = All (λ e. elem (encode e.1) ≡ some e.1)

  put_members-encode_members :
      (m done : Dict V)
      → ReadsBack m
      → IsAscending m
      → Precedes done m
      → put_members elem (encode_members encode m) done ≡ some (done ++ m)
  unfolding put_members encode_members
  put_members-encode_members [] done r a h = ap some (sym (append-nil done))
  put_members-encode_members ((k, v) ∷ m) done r a h =
      rw (r.0, put-last k v done h)
        (put_members-encode_members m (done ++ (k, v) ∷ []) r.1 a.1
            (Precedes-concat done k v m h a.0)
          ∙ ap some (append_assoc done ((k, v) ∷ []) m))

  -- What is there, and in the order of its keys.
  abbrev pub IsWritten : Option (Dict V) → Type ℓ
  IsWritten none = Unit
  IsWritten (some m) = ReadsBack m × IsAscending m

  pub decode_map-encode_map :
      (m : Option (Dict V)) → IsWritten m → decode_map elem (encode_map encode m) none ≡ some m
  unfolding decode_map encode_map
  decode_map-encode_map none w = refl
  decode_map-encode_map (some m) w =
      rw (put_members-encode_members m [] w.0 w.1 (Precedes-nil m)) refl
