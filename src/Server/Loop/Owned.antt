-- ===== src/Server/Loop/Owned.antt =====
-- The timers of the list and the descriptors that they belong to.
use mathlib.Core.Bool.{or_assoc}
use wzy_server.Prelude.{
  ℕ, suc, ◌≡◌, ◌≢◌, refl, ap, Bool, true, false, ◌||◌, ◌&&◌, ◌==◌, List, [], ◌∷◌, ◌++◌, length, ltb,
  none, arith, Bool-cases, inl, inr, ==_iff,
}
use wzy_server.Timer.{Ptr, Heap}
use wzy_server.Timer.Chain.{Entry, ◌∉◌, Seg}
use wzy_server.Timer.Insert.{insert}
use wzy_server.Server.{ClientData, max_fd, update, cb_func_address}

-- Whether the timer at `p` is in the list, and belongs to the connection data at `d`.
abbrev pub owns : Ptr → Ptr → List Entry → Bool
owns p d [] = false
owns p d (x ∷ xs) = ((p == x.addr) && (d == x.user_data)) || owns p d xs

pub owns-append :
    (p d : Ptr) (xs ys : List Entry) → owns p d (xs ++ ys) ≡ (owns p d xs || owns p d ys)
owns-append p d [] ys = refl
owns-append p d (x ∷ xs) ys = rw (owns-append p d xs ys, or_assoc)

pub owns-insert :
    (p d : Ptr) (e : Entry) (xs : List Entry) → owns p d (insert e xs) ≡ owns p d (e ∷ xs)
unfolding insert
owns-insert p d e [] = refl
owns-insert p d e (x ∷ xs) = ground (arith, owns-insert p d e xs)

-- The timer and what stands around it.
pub record Place (p d : Ptr) (xs : List Entry) : Type 0 where
  pub before : List Entry
  pub entry : Entry
  pub after : List Entry
  pub all : xs ≡ before ++ entry ∷ after
  pub at : p ≡ entry.addr
  pub owned : d ≡ entry.user_data

pub owns-Place : (p d : Ptr) (xs : List Entry) → owns p d xs ≡ true → Place p d xs
owns-Place p d [] e = cc
owns-Place p d (x ∷ xs) e = elim (Bool-cases ((p == x.addr) && (d == x.user_data))) [
  | inl here ↦ record {
    before = [];
    entry = x;
    after = xs;
    all = refl;
    at = (==_iff p x.addr).0 (ground (arith, here));
    owned = (==_iff d x.user_data).0 (ground (arith, here));
  }
  | inr further ↦
      let r = owns-Place p d xs (ground (arith, e, further)) in
      record {
        before = x ∷ r.before;
        entry = r.entry;
        after = r.after;
        all = ap (λ r. x ∷ r) r.all;
        at = r.at;
        owned = r.owned;
      }
]

-- A timer of another connection stays where one is taken out.
pub owns-remove :
    (p d : Ptr) (xs : List Entry) (e : Entry) (ys : List Entry)
    → owns p d (xs ++ e ∷ ys) ≡ true
    → d ≢ e.user_data
    → owns p d (xs ++ ys) ≡ true
owns-remove p d xs e ys o other = ground (arith, owns-append p d xs ys, owns-append p d xs (e ∷ ys))

-- The timer is one that `main` made for an element of `users_timer`, which knows its descriptor.
pub record IsWired (users_timer : ℕ → ClientData) (e : Entry) : Type 0 where
  pub fd : ℕ
  pub owner : e.user_data ≡ suc fd
  pub in_array : ltb fd max_fd ≡ true
  pub knows : (users_timer fd).sockfd ≡ fd
  pub calls_back : e.cb_func ≡ cb_func_address

abbrev pub AllWired : (ℕ → ClientData) → List Entry → Type 0
AllWired u [] = Unit {0}
AllWired u (x ∷ xs) = IsWired u x × AllWired u xs

pub AllWired-append :
    (u : ℕ → ClientData) (xs ys : List Entry)
    → AllWired u xs
    → AllWired u ys
    → AllWired u (xs ++ ys)
AllWired-append u [] ys a b = b
AllWired-append u (x ∷ xs) ys a b = (a.0, AllWired-append u xs ys a.1 b)

pub AllWired-split :
    (u : ℕ → ClientData) (xs ys : List Entry)
    → AllWired u (xs ++ ys)
    → AllWired u xs × AllWired u ys
AllWired-split u [] ys a = (tt, a)
AllWired-split u (x ∷ xs) ys a = let r = AllWired-split u xs ys a.1 in ((a.0, r.0), r.1)

pub AllWired-insert :
    (u : ℕ → ClientData) (e : Entry) (xs : List Entry)
    → IsWired u e
    → AllWired u xs
    → AllWired u (insert e xs)
unfolding insert
AllWired-insert u e [] w a = (w, tt)
AllWired-insert u e (x ∷ xs) w a = ground (arith, AllWired-insert u e xs w a.1)

-- New connection data for a descriptor keeps the timers wired that the descriptor had before.
pub AllWired-update :
    (u : ℕ → ClientData) (fd : ℕ) (d : ClientData) (xs : List Entry)
    → d.sockfd ≡ fd
    → AllWired u xs
    → AllWired (update u fd d) xs
unfolding update
AllWired-update u fd d [] k a = tt
AllWired-update u fd d (x ∷ xs) k (w, a) = (
  record {
    fd = w.fd;
    owner = w.owner;
    in_array = w.in_array;
    knows = ground (arith, k, w.knows, ==_iff w.fd fd);
    calls_back = w.calls_back;
  },
  AllWired-update u fd d xs k a,
)

-- An address without a timer is none of the list's.
pub Seg-free :
    (h : Heap) (before stop : Ptr) (xs : List Entry) (a : Ptr)
    → Seg h before xs stop
    → h a ≡ none
    → a ∉ xs
Seg-free h before stop [] a s e = refl
Seg-free h before stop (x ∷ xs) a s e =
    ground (arith, s.0, Seg-free h x.addr stop xs a s.1 e, ==_iff a x.addr)

pub length-insert : (e : Entry) (xs : List Entry) → length (insert e xs) ≡ suc (length xs)
unfolding insert
length-insert e [] = refl
length-insert e (x ∷ xs) = ground (arith, length-insert e xs)
