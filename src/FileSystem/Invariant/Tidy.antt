-- ===== src/FileSystem/Invariant/Tidy.antt =====
-- The part of the invariant that holds of what the shell and the editor do: a directory stands before
-- its children in the pool, and no text reaches the last 296 bytes of a data buffer.
use phantom_os.Prelude.{
  ℕ, suc, ◌+◌, ◌-◌, ◌%◌, ◌^◌, ◌≤◌, ◌<◌, ◌≡◌, ◌⊎◌, inl, inr, Option, some, arith, Bool-cases, ◌==◌,
  ==_iff, drop, replicate,
}
use phantom_os.CString.{Buffer}
use phantom_os.FileSystem.{Ptr, Node, Fs, modify}
use phantom_os.FileSystem.Alloc.{get_current_time}
use phantom_os.FileSystem.Tree.{shift_left, touch, attach, unlink}
use phantom_os.FileSystem.Invariant.Update.{modified_inv}
use phantom_os.FileSystem.Invariant.Unlink.{shift_left_lem, without_slot}

-- The longest text that the editor saves is shorter.
abbrev pub text_limit : ℕ
text_limit = 3800

pub record IsTidyNode (p : Ptr) (n : Node) : Type 0 where
  pub order : (i : ℕ) (c : Ptr) → n.children i ≡ some c → p < c
  pub text : n.size ≤ text_limit

-- The bytes behind every text are 0.
abbrev pub HasTail : Buffer → Type 0
HasTail bytes = drop text_limit bytes ≡ replicate 296 0

pub record IsTidy (s : Fs) : Type 0 where
  pub nodes : (p : Ptr) (n : Node) → s.node p ≡ some n → IsTidyNode p n
  pub tails : (b : Ptr) (bytes : Buffer) → s.block b ≡ some bytes → HasTail bytes

-- A change of one node.
pub modify-IsTidy :
    (p : Ptr) (f : Node → Node) {s : Fs}
    → ((n : Node) → IsTidyNode p n → IsTidyNode p (f n))
    → IsTidy s
    → IsTidy (modify p f s)
modify-IsTidy p f {s} keeps ok = record {
  nodes = λ q n' e.
      let (n, e0, c) = modified_inv p f s.node e in
      rw c (elim (Bool-cases (p == q)) [
        | inl same ↦
            let pq : p ≡ q = (==_iff p q).0 same in
            rw same (rw (← pq) (keeps n (rw (← pq) at (ok.nodes q n e0))))
        | inr other ↦ rw other (ok.nodes q n e0)
      ]);
  tails = ok.tails;
}

touch-IsTidy : (p : Ptr) {s : Fs} → IsTidy s → IsTidy (touch p s)
unfolding touch get_current_time
touch-IsTidy p {s} ok =
    modify-IsTidy p _ {s = record s { time_counter = (s.time_counter + 1) % 2 ^ 32 }}
      (λ n h. record { order = h.order; text = h.text })
      (record { nodes = ok.nodes; tails = ok.tails })

pub attach-IsTidy : (p c : Ptr) {s : Fs} → p < c → IsTidy s → IsTidy (attach p c s)
unfolding attach
attach-IsTidy p c {s} before ok = touch-IsTidy p (
    modify-IsTidy c _ (λ m h. record { order = h.order; text = h.text })
      (modify-IsTidy p _
        (λ n h. record {
          order = λ i d e. elim (Bool-cases (n.child_count == i)) [
            | inl here ↦ let same : c ≡ d = cc (rw here at e) in omega (arith, same, before)
            | inr there ↦ h.order i d (rw there at e)
          ];
          text = h.text;
        })
        ok))

-- What stands in a slot stood in it or in the next one.
shifted :
    (rounds j i : ℕ) (children : ℕ → Option Ptr) (c : Ptr)
    → shift_left rounds j children i ≡ some c
    → (children i ≡ some c) ⊎ (children (suc i) ≡ some c)
shifted rounds j i children c e = ground (arith, shift_left_lem rounds j children i, e)

pub unlink-IsTidy : (p : Ptr) (i : ℕ) {s : Fs} → IsTidy s → IsTidy (unlink p i s)
unfolding unlink
unlink-IsTidy p i {s} ok = touch-IsTidy p (
    modify-IsTidy p (without_slot i)
      (λ n h. record {
        order = λ x c e. elim (Bool-cases (n.child_count - 1 == x)) [
          | inl last ↦ absurd (cc (rw last at e))
          | inr other ↦ elim (shifted (n.child_count - 1 - i) i x n.children c (rw other at e)) [
            | inl here ↦ h.order x c here
            | inr next ↦ h.order (suc x) c next
          ]
        ];
        text = h.text;
      })
      ok)
