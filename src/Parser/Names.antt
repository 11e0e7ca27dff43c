-- ===== src/Parser/Names.antt =====
-- ResourceNames reads back the names of the resources that were packed, in their order.
use xds_test_harness.Base.{
  ◌≡◌, ◌≢◌, ◌↔◌, inl, inr, arith, some, List, [], ◌∷◌, sym, subst, ◌∙◌, ◌++◌, append_assoc,
  append-nil, Option-cases,
}
use xds_test_harness.Text.{Text, text_eq, text_eq_iff}
use xds_test_harness.Errors.{ok}
use xds_test_harness.Proto.{Codec, Anypb, DiscoveryResponse}
use xds_test_harness.Parser.{
  type_url_lds, type_url_cds, type_url_rds, type_url_eds, gather, resource_names,
}
use xds_test_harness.Parser.TypeUrls.{Service, lds, cds, eds, rds, url}

module _ {Any : Type 0} where
  -- Each resource unmarshals, to the name beside it.
  abbrev pub Reads : Codec Any Text → List Any → List Text → Type 0
  Reads c [] [] = Unit
  Reads c [] (n ∷ ns) = ⊥
  Reads c (r ∷ rs) [] = ⊥
  Reads c (r ∷ rs) (n ∷ ns) = (c.unmarshal r ≡ some n) × Reads c rs ns

  -- The codec of the resources of a service.
  abbrev pub codec : Anypb Any → Service → Codec Any Text
  codec pb lds = pb.listener
  codec pb cds = pb.cluster
  codec pb eds = pb.endpoint
  codec pb rds = pb.route

  gather-Reads :
      (c : Codec Any Text) (done : List Text) (rs : List Any) (ns : List Text)
      → Reads c rs ns
      → gather c done rs ≡ ok (done ++ ns)
  unfolding gather
  gather-Reads c done [] [] h = rw append-nil
  gather-Reads c done [] (n ∷ ns) h = elim h [ ]
  gather-Reads c done (r ∷ rs) [] h = elim h [ ]
  gather-Reads c done (r ∷ rs) (n ∷ ns) h =
      rw (h.0, gather) (rw (gather-Reads c (done ++ n ∷ []) rs ns h.1, append_assoc))

  -- The names that a loop returns were read from the resources, in their order.
  gather-ok :
      (c : Codec Any Text) (done : List Text) (rs : List Any) (out : List Text)
      → gather c done rs ≡ ok out
      → (ns : List Text) × (out ≡ done ++ ns) × Reads c rs ns
  unfolding gather
  gather-ok c done [] out h = ([], cc (append-nil done), tt)
  gather-ok c done (r ∷ rs) out h = elim (Option-cases (c.unmarshal r)) [
    | inl e ↦ cc
    | inr (n, e) ↦
        let (ns, eq, reads) = gather-ok c (done ++ n ∷ []) rs out (rw (e, gather) at h) in
        (n ∷ ns, eq ∙ append_assoc done (n ∷ []) ns, (e, reads))
  ]

  resource_names-url :
      (pb : Anypb Any) (k : Service) (res : DiscoveryResponse Any)
      → res.type_url ≡ url k
      → resource_names pb res ≡ gather (codec pb k) [] res.resources
  unfolding resource_names text_eq
  resource_names-url pb lds res e = simp e
  resource_names-url pb cds res e = simp e
  resource_names-url pb eds res e = simp e
  resource_names-url pb rds res e = simp e

  -- For a response of one of the four types: the names are returned exactly where each resource
  -- unmarshals as that type, to that name.
  pub resource_names_iff :
      (pb : Anypb Any) (k : Service) (res : DiscoveryResponse Any) (ns : List Text)
      → res.type_url ≡ url k
      → (resource_names pb res ≡ ok ns) ↔ Reads (codec pb k) res.resources ns
  resource_names_iff pb k res ns e = (read, write)
    where
      read : resource_names pb res ≡ ok ns → Reads (codec pb k) res.resources ns
      read h =
          let (ms, eq, reads) =
            gather-ok (codec pb k) [] res.resources ns (sym (resource_names-url pb k res e) ∙ h) in
          subst (Reads (codec pb k) res.resources) (sym eq) reads

      write : Reads (codec pb k) res.resources ns → resource_names pb res ≡ ok ns
      write reads =
          resource_names-url pb k res e ∙ gather-Reads (codec pb k) [] res.resources ns reads

  -- A response of any other type has no names, whatever it holds, and is no error.
  resource_names-other :
      (pb : Anypb Any) (res : DiscoveryResponse Any)
      → ((k : Service) → res.type_url ≢ url k)
      → resource_names pb res ≡ ok []
  unfolding resource_names
  resource_names-other pb res h = ground (
    arith,
    h lds,
    h cds,
    h eds,
    h rds,
    text_eq_iff res.type_url type_url_lds,
    text_eq_iff res.type_url type_url_cds,
    text_eq_iff res.type_url type_url_eds,
    text_eq_iff res.type_url type_url_rds,
  )
