-- ===== src/Metadata/Store/Existence.antt =====
-- What the metadata store answers about the existence of objects, and the state of its parts.
use intellil.Common.{ℕ, String, true, Option, some, List, ◌≡◌, refl, ok}
use intellil.Common.Float.{Float}
use intellil.Core.Enums.{ObjectType}
use intellil.Metadata.Bloom.Membership
use intellil.Metadata.Hnsw.{HnswIndex}
use intellil.Metadata.Hnsw.Labels
use intellil.Metadata.Store.{Libraries, MetadataStore, on_object_added, might_exist}

-- The Bloom filter and the HNSW index, if there is one, are valid.
pub record IsValid {Index : Type 0} (m : MetadataStore Index) : Type 0 where
  pub bloom : Membership.IsValid m.bloom
  pub hnsw : (h : HnswIndex Index) → m.hnsw ≡ some h → Labels.IsValid h

module _ {F Vector Index : Type 0} ⦃fl : Float F⦄ (libs : Libraries F Vector Index)
    (m : MetadataStore Index) where
  -- `after` still answers true for `x` and for whatever `m` answered true for.
  abbrev pub Indexes : String → MetadataStore Index → Type 0
  Indexes x after =
      IsValid after
      × (might_exist libs after x ≡ ok true)
      × ((y : String) → might_exist libs m y ≡ ok true → might_exist libs after y ≡ ok true)

  -- On a valid store `on_object_added` returns; afterwards the store is valid, and answers true for
  -- the new object and for every object that it answered true for.
  pub on_object_added-Indexes :
      (type : ObjectType) (x : String) (tokens : Option (List ℕ))
      → IsValid m
      → ((on_object_added libs m type x tokens).0 ≡ ok tt)
        × Indexes x (on_object_added libs m type x tokens).1
  unfolding on_object_added might_exist
  on_object_added-Indexes type x tokens valid =
      let (bloom, added, good, here, kept, count) =
        Membership.add-keeps libs.sha256 libs.md5 m.bloom x valid.bloom in
      rw (added, on_object_added) (refl, (record { bloom = good; hnsw = valid.hnsw }, here, kept))
