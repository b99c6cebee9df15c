-- ===== src/LinkedList/Tests.antt =====
-- A list of two words, each its own key.
use l.Base.{◌≡◌, refl, String, some, lookup, insert, string_eq}
use l.Elements.{Elem}
use l.LinkedList.{LinkedList, new_linked_list, add, remove_before}
use l.LinkedList.Linked.{IsLinked, new-IsLinked, add-IsLinked}
use l.LinkedList.Refines.{Cuts, remove_before-Cuts}

abbrev word : String → String
word t = t

abbrev one_word : LinkedList String
one_word = add word "a" new_linked_list

abbrev two_words : LinkedList String
two_words = add word "b" one_word

one_word-IsLinked : IsLinked word one_word
one_word-IsLinked = add-IsLinked word "a" new_linked_list (new-IsLinked word)

two_words-IsLinked : IsLinked word two_words
two_words-IsLinked = add-IsLinked word "b" one_word one_word-IsLinked

abbrev second_element : Elem String
second_element = record { id = 1; value = "b" }

second_stored : lookup "b" two_words.mapping ≡ some second_element
unfolding add new_linked_list lookup insert
second_stored = refl

remove_before-Cuts_example : Cuts word "b" two_words (remove_before word "b" two_words)
remove_before-Cuts_example =
    remove_before-Cuts word "b" second_element two_words two_words-IsLinked second_stored
