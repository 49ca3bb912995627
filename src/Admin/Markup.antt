-- ===== src/Admin/Markup.antt =====
-- The elements that the render function of static/admin.js makes with `Vue.h`: HTML elements and
-- components of Quasar. What these show, and how, is up to them. It is relied on that a QBtn which is
-- disabled or loading has no clicks.
use bananabreadwasm.Prelude.{ℕ, Bool, true, false, not, ◌&&◌, ◌||◌, List, [], ◌∷◌, String}
use bananabreadwasm.Text.{Text, codes}
use bananabreadwasm.Js.{bool, num, finite, Value, str, Fields, field, end, get_field, truthy}
use bananabreadwasm.Host.{Wallet}
use bananabreadwasm.Views.{OwnerGame}
use bananabreadwasm.Admin.Desk.{Pagination, Event}

-- A column of the table.
pub record Column : Type 0 where
  pub name : String
  pub label : String
  pub field : String
  pub align : String
  pub sortable : Bool

-- Handlers, and the attributes that are no plain values.
pub data Binding : Type 0 where
  on_click : Event → Binding
  on_bool : (Bool → Event) → Binding
  on_text : (Text → Event) → Binding
  on_value : (Value → Event) → Binding
  on_request : (Pagination → Event) → Binding
  options : List Wallet → Binding
  rows : List OwnerGame → Binding
  columns : List Column → Binding
  pagination : Pagination → Binding

mutual
  pub data Node : Type 0 where
    element : String → Fields → List Binding → Nodes → Node
    words : Text → Node

  pub data Nodes : Type 0 where
    nil : Nodes
    cons : Node → Nodes → Nodes

abbrev pub nodes : List Node → Nodes
nodes [] = nil
nodes (n ∷ ns) = cons n (nodes ns)

abbrev pub attributes : List (String × Value) → Fields
attributes [] = end
attributes ((k, v) ∷ kvs) = field k v (attributes kvs)

-- A constant text as the value of an attribute.
abbrev pub text : String → Value
text s = str (codes s)

abbrev pub flag : String → String × Value
flag k = (k, bool true)

abbrev pub number : ℕ → Value
number n = num (finite false n 0)

abbrev pub caption : String → Nodes
caption s = cons (words (codes s)) nil

-- The title of a card.
abbrev pub title : String → String → Node
title classes s = element "h2" (attributes (("class", text classes) ∷ [])) [] (caption s)

-- Does an element handle a click in this way?
unfoldable pub handles : (Event → Bool) → List Binding → Bool
handles f [] = false
handles f (on_click e ∷ bs) = f e || handles f bs
handles f (b ∷ bs) = handles f bs

unfoldable pub is_active : Fields → Bool
unfolding truthy get_field
is_active attrs =
    not (truthy (get_field "disable" attrs)) && not (truthy (get_field "loading" attrs))

-- Is there an element that can be clicked for such an event?
unfoldable mutual
  unfolding handles is_active

  pub offers : (Event → Bool) → Node → Bool
  offers f (words t) = false
  offers f (element tag attrs bs ns) = handles f bs && is_active attrs || offers_in f ns

  pub offers_in : (Event → Bool) → Nodes → Bool
  offers_in f nil = false
  offers_in f (cons n ns) = offers f n || offers_in f ns
