-- ===== src/Imap/User/Listed.antt =====
-- What LIST shows: `ListMailboxes` in internal/imapbackend/user.go.
use mathlib.Core.List.{reverse, reverse-cons, reverse-append, reverse-reverse, map-append}
use xyecoc_mailbridge.Base.{
  false, Option, none, some, List, [], ◌∷◌, ◌++◌, map, append_assoc, append-nil, Bytes, eqb,
  eqb_iff, ◌≡◌, refl, sym, ap, ap₂, ◌∙◌, subst, arith, ◌>>=◌,
}
use xyecoc_mailbridge.Remote.{Folder, Tag, Response, Api}
use xyecoc_mailbridge.Imap.Names.{MailboxSpec, taken}
use xyecoc_mailbridge.Imap.Names.Fresh.{
  IsNew, unique_display_name-IsNew, unique_tag_display_name-IsNew,
}
use xyecoc_mailbridge.Imap.User.{
  Settings, Index, User, standard, Rebuilt, names, initial, add_entry, folder_spec, tag_spec,
  add_folder, add_tag, add_folders, add_tags, rebuild, rebuild_mailbox_name_index, folders_tags,
  call, listing, list_mailboxes,
}

-- No name twice.
unfoldable pub Distinct : List Bytes → Type 0
Distinct [] = Unit
Distinct (x ∷ xs) = (taken x xs ≡ false) × Distinct xs

taken-snoc :
    (k y : Bytes) (xs : List Bytes)
    → taken k xs ≡ false
    → eqb y k ≡ false
    → taken k (xs ++ y ∷ []) ≡ false
unfolding taken
taken-snoc k y [] h e = ground (arith, e)
taken-snoc k y (x ∷ xs) h e = ground (arith, taken-snoc k y xs)

Distinct-snoc :
    (y : Bytes) (xs : List Bytes) → Distinct xs → taken y xs ≡ false → Distinct (xs ++ y ∷ [])
unfolding Distinct taken
Distinct-snoc y [] d h = (refl, tt)
Distinct-snoc y (x ∷ xs) d h = (
  taken-snoc x y xs d.0 (ground (arith, eqb_iff x y, eqb_iff y x, h)),
  Distinct-snoc y xs d.1 (ground (arith, h)),
)

taken-reverse : (k : Bytes) (xs : List Bytes) → taken k xs ≡ false → taken k (reverse xs) ≡ false
unfolding taken
taken-reverse k [] h = refl
taken-reverse k (x ∷ xs) h =
    rw (reverse-cons x xs)
      (taken-snoc k x (reverse xs) (taken-reverse k xs (ground (arith, h))) (ground (arith, h)))

Distinct-reverse : (xs : List Bytes) → Distinct xs → Distinct (reverse xs)
unfolding Distinct
Distinct-reverse [] d = tt
Distinct-reverse (x ∷ xs) d =
    rw (reverse-cons x xs)
      (Distinct-snoc x (reverse xs) (Distinct-reverse xs d.1) (taken-reverse x xs d.0))

abbrev pub specs : Index → List MailboxSpec
specs = map (λ (e : Bytes × MailboxSpec). e.1)

-- The loops have added the mailboxes `done`, under new names.
record Good (r : Rebuilt) (done : List MailboxSpec) : Type 0 where
  used : r.occupied ≡ names r.extras ++ reverse (names standard)
  distinct : Distinct r.occupied
  added : specs r.extras ≡ reverse done

record Succeeds (o : Option Rebuilt) (done : List MailboxSpec) : Type 0 where
  result : Rebuilt
  returned : o ≡ some result
  good : Good result done

add_entry-Succeeds :
    (spec : MailboxSpec) (o : Option (Bytes × List Bytes)) (r : Rebuilt) (done : List MailboxSpec)
    → IsNew r.occupied o
    → Good r done
    → Succeeds (add_entry spec o r) (done ++ spec ∷ [])
unfolding add_entry IsNew Distinct
add_entry-Succeeds spec none r done n g = absurd n
add_entry-Succeeds spec (some (disp, occ)) r done n g = record {
  result = _;
  returned = refl;
  good = record {
    used = n.1 ∙ ap (◌∷◌ disp) g.used;
    distinct = rw n.1 (n.0, g.distinct);
    added = ap (◌∷◌ spec) g.added ∙ sym (reverse-append done (spec ∷ []));
  };
}

map-reverse {ℓ κ} :
    {A : Type ℓ} {B : Type κ} (f : A → B) (xs : List A) → map f (reverse xs) ≡ reverse (map f xs)
map-reverse f [] = refl
map-reverse f (x ∷ xs) = rw (
  reverse-cons x xs,
  reverse-cons (f x) (map f xs),
  map-append f (reverse xs) (x ∷ []),
  map-reverse f xs,
)

bind-Succeeds :
    (o : Option Rebuilt) (k : Rebuilt → Option Rebuilt) (done more : List MailboxSpec)
    → Succeeds o done
    → ((r : Rebuilt) → Good r done → Succeeds (k r) more)
    → Succeeds (o >>= k) more
bind-Succeeds o k done more s h =
    subst (λ (x : Option Rebuilt). Succeeds (x >>= k) more) (sym s.returned) (h s.result s.good)

initial-Good : Good initial []
unfolding initial Distinct taken eqb
initial-Good = record {
  used = refl;
  distinct = (refl, (refl, (refl, (refl, (refl, (refl, tt))))));
  added = refl;
}

-- The names are distinct; the mailboxes are the standard ones and those of the answer, in order.
unfoldable pub expected : Option Response → List MailboxSpec
expected none = []
expected (some r) = map folder_spec r.folders ++ map tag_spec r.tags

-- What a listing promises for an answer.
unfoldable pub Lists : Option Response → Index → Type 0
Lists resp listed = Distinct (names listed) × (specs listed ≡ specs standard ++ expected resp)

Good-Lists :
    (r : Rebuilt) (resp : Response)
    → Good r (expected (some resp))
    → Lists (some resp) (standard ++ reverse r.extras)
unfolding Lists
Good-Lists r resp g = (
  subst Distinct
      (ap reverse g.used
        ∙ reverse-append (names r.extras) (reverse (names standard))
        ∙ ap₂ ◌++◌ (reverse-reverse (names standard)) (sym (map-reverse _ r.extras))
        ∙ sym (map-append (λ (e : Bytes × MailboxSpec). e.0) standard (reverse r.extras)))
      (Distinct-reverse r.occupied g.distinct),
  map-append (λ (e : Bytes × MailboxSpec). e.1) standard (reverse r.extras)
      ∙ ap (λ (x : List MailboxSpec). specs standard ++ x)
          (map-reverse _ r.extras ∙ ap reverse g.added ∙ reverse-reverse (expected (some resp))),
)

module _ {W : Type 0} (api : Api W) (cfg : Settings) where
  add_folders-Succeeds :
      (fs : List Folder) (r : Rebuilt) (done : List MailboxSpec)
      → Good r done
      → Succeeds (add_folders api cfg fs r) (done ++ map folder_spec fs)
  unfolding add_folders add_folder
  add_folders-Succeeds [] r done g = record {
    result = r;
    returned = refl;
    good = rw (append-nil done) g;
  }
  add_folders-Succeeds (f ∷ fs) r done g =
      bind-Succeeds _ (add_folders api cfg fs) (done ++ folder_spec f ∷ []) _
        (add_entry-Succeeds (folder_spec f) _ r done
          (unique_display_name-IsNew api.unicode f.name (folder_spec f) r.occupied) g)
        (λ r' g'.
          subst (Succeeds (add_folders api cfg fs r'))
            (append_assoc done (folder_spec f ∷ []) (map folder_spec fs))
            (add_folders-Succeeds fs r' _ g'))

  add_tags-Succeeds :
      (ts : List Tag) (r : Rebuilt) (done : List MailboxSpec)
      → Good r done
      → Succeeds (add_tags api cfg ts r) (done ++ map tag_spec ts)
  unfolding add_tags add_tag
  add_tags-Succeeds [] r done g = record {
    result = r;
    returned = refl;
    good = rw (append-nil done) g;
  }
  add_tags-Succeeds (t ∷ ts) r done g =
      bind-Succeeds _ (add_tags api cfg ts) (done ++ tag_spec t ∷ []) _
        (add_entry-Succeeds (tag_spec t) _ r done
          (unique_tag_display_name-IsNew api.unicode t.name (tag_spec t) r.occupied) g)
        (λ r' g'.
          subst (Succeeds (add_tags api cfg ts r'))
            (append_assoc done (tag_spec t ∷ []) (map tag_spec ts)) (add_tags-Succeeds ts r' _ g'))

  rebuild-Succeeds : (resp : Response) → Succeeds (rebuild api cfg resp) (expected (some resp))
  unfolding rebuild expected
  rebuild-Succeeds resp =
      bind-Succeeds _ (add_tags api cfg resp.tags) (map folder_spec resp.folders) _
        (add_folders-Succeeds resp.folders initial [] initial-Good)
        (λ r g. add_tags-Succeeds resp.tags r _ g)

  rebuild_mailbox_name_index-Lists :
      (resp : Option Response) (u : User W)
      → Lists resp (standard ++ (rebuild_mailbox_name_index api cfg resp u).0)
  unfolding rebuild_mailbox_name_index Lists expected Distinct taken eqb
  rebuild_mailbox_name_index-Lists none u =
      ((refl, (refl, (refl, (refl, (refl, (refl, tt)))))), refl)
  rebuild_mailbox_name_index-Lists (some resp) u =
      let s = rebuild-Succeeds resp in rw s.returned (Good-Lists s.result resp s.good)

  -- Whatever the API answers, the names that `ListMailboxes` returns are distinct, and their
  -- mailboxes are the six standard ones and, where the answer has status 1, its folders and its
  -- tags, in the order of the answer.
  pub list_mailboxes-Lists :
      (u : User W)
      → Lists
          (listing api cfg (call api cfg (folders_tags api cfg) u).0)
          (list_mailboxes api cfg u).0
  unfolding list_mailboxes
  list_mailboxes-Lists u =
      rebuild_mailbox_name_index-Lists (listing api cfg (call api cfg (folders_tags api cfg) u).0)
        (call api cfg (folders_tags api cfg) u).1
