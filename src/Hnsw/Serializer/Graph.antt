-- ===== src/Hnsw/Serializer/Graph.antt =====
-- The round trip of the graph data: levels, elements and blocks of elements.
use mathlib.Core.List.{append_assoc}
use vector_similarity.Base.{ℕ, ◌^◌, ◌<◌, ◌≡◌, refl, List, ◌++◌, length}
use vector_similarity.Hnsw.Links.{LevelData}
use vector_similarity.Hnsw.Serializer.Bytes.{
  All, ok, read_binary_pod, read_each, write_binary_pod, write_each, read-write,
  read_each-write_each,
}
use vector_similarity.Hnsw.Serializer.{Element, save_level, save_element, save_block}
use vector_similarity.Hnsw.Serializer.Load.{restore_level, restore_element, restore_block}

abbrev pub Fits : ℕ → ℕ → Type 0
Fits w v = v < 256 ^ w

pub record IsStorableLevel (d : LevelData) : Type 0 where
  pub few_links : Fits 2 (length d.links)
  pub links : All (Fits 4) d.links
  pub few_incoming : Fits 4 (length d.incoming)
  pub incoming : All (Fits 4) d.incoming

pub record IsStorableElement (e : Element) : Type 0 where
  pub few_levels : Fits 8 (length e.others)
  pub level0 : IsStorableLevel e.level0
  pub others : All IsStorableLevel e.others

pub record IsStorableBlock (b : List Element) : Type 0 where
  pub few_elements : Fits 4 (length b)
  pub elements : All IsStorableElement b

ids_back :
    (ids : List ℕ) (rest : List ℕ)
    → All (Fits 4) ids
    → read_each (read_binary_pod 4) (length ids) (write_each (write_binary_pod 4) ids ++ rest)
      ≡ ok (ids, rest)
ids_back ids rest all =
    read_each-write_each (Fits 4) (write_binary_pod 4) (read_binary_pod 4) ids rest
      (λ v tail h. read-write 4 v tail h) all

pub restore_level-save :
    (d : LevelData) (rest : List ℕ)
    → IsStorableLevel d
    → restore_level (save_level d ++ rest) ≡ ok (d, rest)
unfolding restore_level save_level
restore_level-save d rest v =
    let w = write_each (write_binary_pod 4) in
    let tail = w d.incoming ++ rest in
    let mid = write_binary_pod 4 (length d.incoming) ++ tail in
    simp (append_assoc) (
      rw
        (
          read-write 2 (length d.links) (w d.links ++ mid) v.few_links,
          ids_back d.links mid v.links,
          read-write 4 (length d.incoming) tail v.few_incoming,
          ids_back d.incoming rest v.incoming,
        )
        refl)

pub restore_element-save :
    (e : Element) (rest : List ℕ)
    → IsStorableElement e
    → restore_element (save_element e ++ rest) ≡ ok (e, rest)
unfolding restore_element save_element
restore_element-save e rest v =
    let tail = write_each save_level e.others ++ rest in
    simp (append_assoc) (
      rw
        (
          read-write 8 (length e.others) (save_level e.level0 ++ tail) v.few_levels,
          restore_level-save e.level0 tail v.level0,
          read_each-write_each IsStorableLevel save_level restore_level e.others rest
              restore_level-save v.others,
        )
        refl)

pub restore_block-save :
    (b : List Element) (rest : List ℕ)
    → IsStorableBlock b
    → restore_block (save_block b ++ rest) ≡ ok (b, rest)
unfolding restore_block save_block
restore_block-save b rest v = simp (append_assoc) (
    rw (read-write 4 (length b) (write_each save_element b ++ rest) v.few_elements) (
      read_each-write_each IsStorableElement save_element restore_element b rest
        restore_element-save v.elements))
