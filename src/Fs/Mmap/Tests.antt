-- ===== src/Fs/Mmap/Tests.antt =====
-- Maps of a file at an example.
use future_aio.Base.{
  ℕ, ◌≡◌, refl, sym, ap, ◌∙◌, List, [], ◌∷◌, length, replicate, length-replicate, ok, ok-injective,
  returns,
}
use future_aio.Fs.Mmap.Opening.{MapSystem, create, open_map}
use future_aio.Fs.Mmap.Opening.Disk.{IsDisk, Returned, OfLength, OfContent}
use future_aio.Fs.Mmap.Opening.Sizes.{maps-Returned}

-- A disk with one file under all names. A descriptor is the path it was opened with, and setting a
-- length fills the file with zeros.
abbrev disk : MapSystem (List ℕ)
disk = record {
  File = ℕ;
  open_with = λ o p w. (ok p, w);
  set_len = λ f n w. (ok tt, replicate n 0);
  metadata_len = λ f w. (ok (length w), w);
  map = λ f w. (ok w, w);
}

disk-IsDisk : IsDisk disk
disk-IsDisk = record {
  content = λ p w. w;
  path_of = λ f. f;
  opens = λ o p f w w' h. (sym (ok-injective (ap (λ r. r.0) h)), ap (λ r. r.1) (sym h));
  sets = λ f n w w' h. ap (λ r. length r.1) (sym h) ∙ length-replicate n 0;
  tells = λ f n w w' h. (sym (ok-injective (ap (λ r. r.0) h)), ap (λ r. r.1) (sym h));
  maps = λ f bytes w w' h. sym (ok-injective (ap (λ r. r.0) h));
}

maps-Returned_example :
    Returned disk (OfLength 3) (create disk 8 3 (1 ∷ []))
    × Returned disk (OfContent (1 ∷ []) 3) (open_map disk 8 3 (1 ∷ []))
unfolding disk-IsDisk
maps-Returned_example = maps-Returned disk disk-IsDisk 8 3 (1 ∷ [])

-- A file that is shorter than the minimum, but not empty.
open_short : open_map disk 8 3 (1 ∷ []) ≡ (returns (ok (1 ∷ [], 8)), 1 ∷ [])
unfolding open_map
open_short = refl

open_empty : open_map disk 8 3 [] ≡ (returns (ok (0 ∷ 0 ∷ 0 ∷ [], 8)), 0 ∷ 0 ∷ 0 ∷ [])
unfolding open_map
open_empty = refl
