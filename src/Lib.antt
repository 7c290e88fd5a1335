-- ===== src/Lib.antt =====
-- A verification library for edgecdnx-controller, the Kubernetes operator of EdgeCDN-X. The operator
-- validates the resources of tenants in admission webhooks, reconciles them in controllers, and
-- mirrors them from an upstream cluster into a local one.
--
-- The program's parts, and the files that model them:
-- - Common, Strings, Net: what the models share. A Go string is a list of bytes, letter case is that
--   of ASCII; Strings holds the functions of the package strings that the source calls, Net the
--   masks of net.IPNet and net.ParseCIDR over an abstract grammar of addresses.
-- - Consolidation (internal/consolidation/consolidation.go): ConsolidateV4 and ConsolidateV6 are the
--   one function `consolidate` at 32 and at 128 bits. The loop over prefix lengths is `merge_rounds`,
--   the marking of covered prefixes `mark_levels`, the filter after it `keep_prefixes`. A Go map is an
--   association list, and the order in which it is visited is a parameter, as sort.Slice is.
-- - Tenancy (internal/tenancy/scope.go, cache.go and validation.go, and the handler in
--   internal/webhook/v1alpha1/tenancy_webhook.go): ownership by projects. The reader of the API server
--   is a function from a kind, a namespace and a name.
-- - Webhook.DnsEndpoint, Webhook.Service, Webhook.Zone (internal/webhook/v1alpha1/*_webhook.go): the
--   validators, as functions from an object and what the API server lists to warnings and an error.
--   Webhook.Admission has the relation of requests that are admitted one at a time.
--   Webhook.HealthCheckProfile and Webhook.Project are those of health check profiles and projects,
--   and Webhook.Requests has the operations of a request.
-- - Api (api/v1alpha1/service_types.go): the parts of a Service that the builders read, and a sample
--   for the tests. Api.Probes (healthcheckprofile_types.go) has the probes of a profile with the rules
--   that the API server checks before the webhook.
-- - Builder (internal/builder): each builder is the object that it has built so far, and each of its
--   methods a function on that. Builder.Ingress has the rules, the TLS entries and the annotations of
--   a cached Service, and Builder.Ingress.Snippet the nginx configuration that is rendered for it.
-- - Controller.Downstream (internal/controller/downstream_controller.go): reconcileKey over the state
--   of the local cluster, with any call of the API server failing; Downstream.Queue has what decides
--   which keys are queued, Downstream.Worker the loop that takes them, as steps on the upstream cache,
--   the local cluster and the queue; Downstream.Pool has the workers that Start runs side by side, as
--   interleaved steps on a queue that is an interface, and Downstream.Start the listing of mirrors with
--   which Start begins. Downstream.Agreement has the abstract view of the local cluster: what it holds
--   of each key for this upstream.
-- - Controller.Routing (service_routing_controller.go with internal/builder/dnsendpoint_builder.go):
--   the DNSEndpoints of a service, with those of its namespace as state. Routing.Rest and
--   Routing.Repeat have what a reconciliation leaves; Routing.Admission and Routing.Only have the
--   controller and the webhooks of DNSEndpoints and of zones together.
-- - Controller.Services (service_controller.go): the one write that a reconciliation ends in; the
--   hashes of the builders are parameters. Services.Objects has the objects that are built.
-- - Controller.Caches (service_cache_controller.go): the writes of a reconciliation up to its end;
--   Caches.Objects has the objects that are built.
-- - Controller.Delivery: the service controller and the cache controller together, from the Secret of
--   cert-manager to the Ingress of a cache.
-- - Controller.Challenges (challenge_controller.go): the search for the service that owns an ACME
--   challenge, on fuel with a theorem on how much is enough, and the write of its ApplicationSet;
--   Challenges.Solver has the pod, the Service and the Ingress that answer it.
-- - Controller.Zones (zone_controller.go): the cleanup before a zone goes.
-- - Controller.Statuses (location_controller.go, prefixlist_controller.go,
--   healthcheckprofile_controller.go): one status each.
-- - Featuregate (internal/featuregate/featuregate.go).
-- - Main (cmd/main.go): main as a list of checks and of calls of controller-runtime that may fail, and
--   parseCSVValues. Main.Arguments has the flags, Main.Servers the options of the manager, its servers
--   and its clients, and Main.Scopes what its caches hold.
--
-- Loops are structural recursion over the lists they visit, or recursion on the number of rounds
-- that the Go loop makes, so that no fuel can run out there; `mark_levels` is given exactly the number
-- of prefix lengths, Controller.Services.Progress runs a stated number of reconciliations, and
-- Controller.Downstream.Drain takes as many keys as wait in the queue.
-- Libraries are parameters with their documented behaviour as named hypotheses: the grammar and the
-- printing of addresses, github.com/miekg/dns, net.ParseIP, md5, json, base64, SetControllerReference,
-- reflect.DeepEqual and the API server. The API server stores what it is given, and removes an object
-- that is deleted at once where it has no finalizers; what it keeps of others is not said.
-- An IPv6 prefix that is IPv4-mapped is in the model of Consolidation as package net treats it
-- (IPNet.Contains and the re-read keys of the joined prefixes); an IPv4 text in a list of IPv6
-- prefixes is not.
--
-- Not modelled: logging and the texts of messages (they are constructors), the scheme and
-- the options of the reconcilers in cmd/main.go (main hands them on as they are), generated code, the
-- delays of the rate limiter, and the parts of Kubernetes objects that are
-- constant.
pub mod Common
pub mod Strings
pub mod Net
pub mod Consolidation
pub mod Webhook
pub mod Tenancy
pub mod Api
pub mod Builder
pub mod Controller
pub mod Featuregate
pub mod Main
