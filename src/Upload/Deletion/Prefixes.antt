-- ===== src/Upload/Deletion/Prefixes.antt =====
-- Deleting a media item.
use api_calixio.Prelude.{
  ℕ, true, none, some, List, [], ◌∷◌, ◌≡◌, refl, ap, ◌∙◌, arith, find, find-holds, subst,
}
use api_calixio.Text.{Text, text_eq}
use api_calixio.Text.Laws.{text_eq→eq}
use api_calixio.Records.{Media}
use api_calixio.External.{External}
use api_calixio.Exec.{World, ok, >>=-eq-ok, unless-raise-ok, if-raise-ok, observe}
use api_calixio.Repository.Sql.{update_where}
use api_calixio.Repository.MediaRows.{is_kept, with_deletion, get_by_id, update_kept, soft_delete}
use api_calixio.Storage.Prefix.{media_prefix}
use api_calixio.Storage.Objects.{delete_objects_by_prefix}
use api_calixio.Upload.{UploadService, has_blank}
use api_calixio.Upload.Deletion.{delete_objects_of, forget_playback, delete_media}

find-deleted :
    (id : Text) (t : ℕ) (ms : List Media)
    → find (is_kept id) (update_where (is_kept id) (with_deletion t) ms) ≡ none
find-deleted id t [] = refl
find-deleted id t (m ∷ ms) = ground (arith, find-deleted id t ms)

kept_id : (id : Text) (m : Media) → is_kept id m ≡ true → m.id ≡ id
kept_id id m h = ground (arith, text_eq→eq m.id id)

module _ (ext : External) (s : UploadService) where
  open ext use {X, now, query}

  pub media-ok :
      (id : Text) (w : World X) {m : Media}
      → (get_by_id ext id w).0 ≡ ok m
      → (find (is_kept id) w.media ≡ some m) × ((get_by_id ext id w).1.media ≡ w.media)
  unfolding get_by_id
  media-ok id w h = ground arith

  soft_delete-ok :
      (id : Text) (t : ℕ) (w : World X) {a : Unit {0}}
      → (soft_delete ext id t w).0 ≡ ok a
      → (soft_delete ext id t w).1.media ≡ update_where (is_kept id) (with_deletion t) w.media
  unfolding soft_delete update_kept
  soft_delete-ok id t w h = ground arith

  forget_playback-ok :
      (id : Text) (w v : World X) (a : Unit {0})
      → forget_playback ext s id w ≡ (ok a, v)
      → v.media ≡ w.media
  unfolding forget_playback
  forget_playback-ok id w v a h = ground arith

  deleted-ok :
      (m : Media) (w : World X) {a : Unit {0}}
      → (delete_objects_of ext s m w).0 ≡ ok a
      → (delete_objects_by_prefix ext s.storage (media_prefix m.owner_user_id m.id) w).0 ≡ ok tt
  unfolding delete_objects_of
  deleted-ok m w h = ground arith

  -- Deleting a media item succeeds only for its owner; the deletion of the objects under the prefix
  -- of the item has then returned without an error; and afterwards no media item with this
  -- identifier is found.
  pub delete_media-ok :
      (owner id : Text) (w v : World X) (a : Unit {0})
      → delete_media ext s owner id w ≡ (ok a, v)
      → (m : Media) × (find (is_kept id) w.media ≡ some m)
        × (m.owner_user_id ≡ owner)
        × ((delete_objects_by_prefix ext s.storage
              (media_prefix owner m.id)
              (get_by_id ext id w).1).0
            ≡ ok tt)
        × (find (is_kept id) v.media ≡ none)
  unfolding delete_media
  delete_media-ok owner id w v a h =
      let (filled, h1) = if-raise-ok (has_blank owner id) _ _ _ h in
      let (m, e, h2) = >>=-eq-ok (get_by_id ext id) _ w h1 in
      let (mine, h3) = unless-raise-ok (text_eq m.owner_user_id owner) _ _ _ h2 in
      let u = (get_by_id ext id w).1 in
      let (b, e4, h4) = >>=-eq-ok (delete_objects_of ext s m) _ u h3 in
      let u2 = (delete_objects_of ext s m u).1 in
      let t = (now u2.outside).0 in
      let u3 = (observe now u2).1 in
      let (c, e6, h6) = >>=-eq-ok (soft_delete ext m.id t) (λ c. forget_playback ext s id) u3 h4 in
      let (found, same) = media-ok id w e in
      let named : m.id ≡ id = kept_id id m (find-holds (is_kept id) w.media m found) in
      let owned : m.owner_user_id ≡ owner = text_eq→eq _ _ mine in
      (
        m,
        found,
        owned,
        subst (λ o. (delete_objects_by_prefix ext s.storage (media_prefix o m.id) u).0 ≡ ok tt)
            owned (deleted-ok m u e4),
        ap (find (is_kept id)) (
              forget_playback-ok id (soft_delete ext m.id t u3).1 v a h6
              ∙ soft_delete-ok m.id t u3 e6
              ∙ ap (λ i. update_where (is_kept i) (with_deletion t) u3.media) named)
            ∙ find-deleted id t u3.media,
      )
