-- ===== src/Model/Counter/Report.antt =====
-- GetUnreadMsgCount: the report of a user's unread counts.
use zattd.Base.{
  ℕ, zero, suc, ◌-◌, ◌<◌, ◌≡◌, ◌≢◌, ◌∙◌, true, [], ◌∷◌, ◌++◌, some, arith, take, ltb, append-nil,
  append_assoc,
}
use zattd.Base.StdMap.{StdMap, find, Above, IsSorted, AllBelow, insert_last}
use zattd.Model.Counter.Cache.{CacheManager, UserUnreadCount, get_unread_count_by_client_type}
use zattd.Model.Counter.Manager.{Counter, copy_counts, get_unread_msg_count}
use zattd.Model.Counter.Unread.{UnreadIsSorted, EntryIsSorted}

-- The entries of `out` lie below those of `m`, which ascend.
abbrev Before : StdMap ℕ → StdMap ℕ → Type 0
Before out [] = Unit {0}
Before out ((k, v) ∷ m) = AllBelow k out

AllBelow-mono : (i k : ℕ) (m : StdMap ℕ) → i < k → AllBelow i m → AllBelow k m
AllBelow-mono i k [] h a = tt
AllBelow-mono i k ((j, w) ∷ m) h a = (omega arith, AllBelow-mono i k m h a.1)

AllBelow-last : (i k v : ℕ) (m : StdMap ℕ) → i < k → AllBelow i m → AllBelow k (m ++ (i, v) ∷ [])
AllBelow-last i k v [] h a = (h, tt)
AllBelow-last i k v ((j, w) ∷ m) h a = (omega arith, AllBelow-last i k v m h a.1)

Before-last :
    (k v : ℕ) (out m : StdMap ℕ) → AllBelow k out → Above k m → Before (out ++ (k, v) ∷ []) m
Before-last k v out [] a b = tt
Before-last k v out ((j, w) ∷ m) a b = AllBelow-last k j v out b.0 a

Above-IsSorted : (k : ℕ) (m : StdMap ℕ) → Above k m → IsSorted m
Above-IsSorted k [] a = tt
Above-IsSorted k ((j, w) ∷ m) a = a.1

copy_counts-take :
    (room : ℕ) (m out : StdMap ℕ)
    → IsSorted m
    → Before out m
    → copy_counts room m out ≡ out ++ take room m
unfolding copy_counts
copy_counts-take zero [] out s b = rw append-nil
copy_counts-take (suc room) [] out s b = rw append-nil
copy_counts-take zero ((k, v) ∷ m) out s b = rw append-nil
copy_counts-take (suc room) ((k, v) ∷ m) out s b =
    let e : suc room - 1 ≡ room = omega arith in
    let t : ltb 0 (suc room) ≡ true = ground arith in
    rw (e, t, insert_last k v out b)
      (copy_counts-take room m (out ++ (k, v) ∷ []) (Above-IsSorted k m s)
          (Before-last k v out m b s)
        ∙ append_assoc out ((k, v) ∷ []) (take room m))

selected_IsSorted :
    (client_type : ℕ) (u : UserUnreadCount)
    → EntryIsSorted u
    → IsSorted (get_unread_count_by_client_type client_type u)
unfolding get_unread_count_by_client_type
selected_IsSorted client_type u s = ground arith

Before-nil : (m : StdMap ℕ) → Before [] m
Before-nil [] = tt
Before-nil ((k, v) ∷ m) = tt

-- In a cache whose maps ascend, GetUnreadMsgCount for a user that is not 0 and has an entry fills
-- an empty counter with the counts of the 300 friends with the least ids, in the order of the ids,
-- and with the id of the user.
pub unread_report :
    (user client_type : ℕ) (counter : Counter) (c : CacheManager) (u : UserUnreadCount)
    → UnreadIsSorted c
    → user ≢ 0
    → find user c.unread_instance ≡ some u
    → counter.unread_count ≡ []
    → get_unread_msg_count user client_type counter c ≡ (
      true,
      record counter {
        user_id = user;
        unread_count = take 300 (get_unread_count_by_client_type client_type u);
      },
    )
unfolding get_unread_msg_count
unread_report user client_type counter c u s hu found empty =
    let m = get_unread_count_by_client_type client_type u in
    let copied : copy_counts 300 m counter.unread_count ≡ take 300 m = rw empty (
      copy_counts-take 300 m [] (selected_IsSorted client_type u (s.entries user u found))
        (Before-nil m)) in
    ground (arith, found, copied)
