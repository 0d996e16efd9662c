-- ===== src/Lib.antt =====
-- Verification of Python tools of the osac-test-infra repository: the scripts that stand between a
-- CI run and what becomes public or changes a lab.
--
-- The parts and the files that model them:
--   - .github/scripts/release_gate.py searches and cleans a directory before it is published.
--     `main` (ReleaseGate/Main) builds an inventory of known secret values (ReleaseGate/Inventory:
--     `needles_from_secret_file`, `needles_from_k8s_secrets`, `_add_string`), derives the forms in
--     which a value may show up (ReleaseGate/Variants: `variants`, over the base64 of
--     ReleaseGate/Base64), and goes through the files (ReleaseGate/Directory: `process_directory`),
--     where each is unpacked (ReleaseGate/Archive: `archive_payload`) and censored
--     (ReleaseGate/Censor: `censor_bytes`).
--   - .github/scripts/select-jobs.py decides for a pull request which E2E suites are worth running.
--     `main` (SelectJobs/Run) asks a language model (SelectJobs/Prompt: `build_user_content`;
--     SelectJobs/Model: `build_graphify_context`, `call_gemini`, `parse_gemini_decisions`), merges
--     its verdicts with those of path rules (SelectJobs/Decide: `decide`), counts what the calls cost
--     (SelectJobs/Cost: `aggregate_cost`) and writes a comment (SelectJobs/Comment:
--     `render_decision_table`; SelectJobs/Jobs: `render_job_group_table`; SelectJobs/Reason:
--     `_sanitize_reason`).
--   - .github/scripts/redact.py wipes what gitleaks found in a copy of the logs. Redact/Secrets has
--     `collect_secrets` and the decoders, Redact/Spans the searches for a secret and its encodings,
--     Redact/Columns the positions in the report, Redact/Paths its texts, Redact/Ranges `merge_ranges` and `apply_ranges`,
--     and Redact/Tree `resolve_path` and `redact_tree`, whose state is the bytes of each file.
--   - .github/scripts/raw_inventory.py keeps the virtual bare-metal hosts of a group in a file (Hosts:
--     `RawInventory.load` and `save`, `is_group_host_name`), and .github/scripts/reconcile-bmhs.py
--     makes the cluster agree with it (Hosts/Reconcile: `delete_stale_bmhs`, `create_bmhs`,
--     `wait_for_available`, `label_bmhs`, `main`), whose state is the cluster behind `oc`; the machines
--     themselves are made and removed by .github/scripts/manage-virtual-bmh-vms.py (Hosts/Machines:
--     `cmd_create`, `cmd_delete`), whose state is libvirt's and the file.
--   - infra/netris/roles/force-destroy-caas/files/netris_orphan_cleanup.py deletes what orders that are
--     gone have left in the controller (Cleanup), whose state is behind its calls. Beside it,
--     delete_worker_bmis.py deletes the workers' instances and waits until they are gone
--     (Cleanup/Workers, whose loop runs for a number of rounds that is given).
--   - .github/scripts/track-recurring-failure.py keeps a tracking issue for each failing test (Track:
--     `find_existing`, `main`), whose state is the list of issues.
--   - infra/netris/scripts/ocp_uplink.py attaches the port of a node to a network. Uplink/Reconcile
--     is `reconcile`, with the checks that `server_port_underlay` and `full_port_name`
--     (Uplink/Ports) make; Uplink/Resolve is `north_south_links` and the choice of the port by
--     `resolve`, from the verified uplinks on, and Uplink/Guest the mapping of addresses to
--     interfaces of `guest_interfaces`.
-- Text models what the scripts use of Python's texts, and Prelude/Search its searches in byte
-- strings; the scripts of .github/scripts share them.
--
-- State and errors: a byte string or a text is the list of its numbers. What an operation on a file
-- does is decided by the directory's entry (`Faults`), so that a theorem about all entries is one
-- about every pattern of failures; an exception is a value (`Ending`, `Option`, a Boolean that tells
-- whether all went well). The replies of the model and of the controller are given as values, and
-- the requests that change something are part of what a run returns.
--
-- Bounds and fuel: a replacement (`replace`, `substitute`) runs on as many steps as the data have
-- bytes, and one more, and each step takes one byte at least; a number has at most one digit more
-- than its value. The search for a form in a log (`occurrences`) has a round for each byte and one more,
-- and each round takes a byte at least. The search for a base64 token (`replace_tokens`) has a round for
-- each byte and one more; the source's loop does not end on an empty pattern, which a value of less than
-- seven bytes would have, and the values that `build_inventory` collects are longer. A host is
-- asked about at most 120 times and a blob is decoded five times, as in the source. The gate's two passes are repeated three times and nested documents are opened
-- four levels deep, as in the source. Every other loop is recursion on its list.
--
-- Parameters, with the behaviour that is relied on as a named hypothesis where there is one: the
-- JSON parser, the entropy test and the decompressors of the gate (`Library`, `Codecs`), its hash,
-- its shape rules (`ShapeRule`, with `AreSearches`: a search splits its data); the client, the graph
-- tool, the regular expression for the model's answer and two number formats of the job selection
-- (`World`); the expressions on port names (`Patterns`, `Names`, `Forms`) and the controller (`Controller`);
-- the expressions of the redaction (`Expressions`, with `AreSpans`: what they find is a part of the
-- content), its decoders (`Decoders`) and the file system (`System`);
-- the commands of `oc` (`Oc`, with `IsLawful`: what is documented of each; a patch that fails may leave the host) and of libvirt
-- (`Libvirt`, with `IsIsolated`, and `IsTruthful` while the daemon is reached), the controller of the clean-up (`Netris`), the random tokens as a list, and JSON documents as
-- values (`Value`).
--
-- Not modelled: argument parsing, printing and step summaries; the text of the system instruction;
-- the JSON artifact of the job selection; the virsh, ssh and HTTP calls of ocp_uplink.py and its
-- commands beside those above; the other scripts of .github/scripts and of the roles, the monitoring
-- scripts, workflows and shell scripts, and the vendored Ansible collections. Prices are exact integers
-- where the source has floating-point dollars.
pub mod Prelude
pub mod Text
pub mod ReleaseGate
pub mod Redact
pub mod Hosts
pub mod Cleanup
pub mod Track
pub mod SelectJobs
pub mod Uplink
