-- ===== src/Lib.antt =====
-- Verification library of the opsy-ami-operator repository, a Kubernetes operator that builds
-- machine images with packer. A PackerBuilder resource goes through flight checks, a job that runs
-- packer, the watch of the job and its log, and a clean-up; a runner in memory keeps the state of
-- each build and accepts only the transitions of a table.
--
-- Parts and files:
--   Main, Main/*          cmd/main.go: Run has `init` and `main`, Controllers the reconcilers and
--                         their `SetupWithManager`, Logging the banner and the logger, Process a
--                         process that may end early, Libraries what is called; Start has proofs
--   Api, Api/*            api/ami/v1alpha1: the resources, the enumerations and their texts, and
--                         the text of a packer command (`String`, `buildFlags`)
--   Opsy, Opsy/*          pkg/opsy/opsy.go: the runner of states, the diagram of its table, and runs
--                         of its calls
--   Events, Client        pkg/events/events.go and pkg/client/client.go
--   Status                pkg/status/status.go: `Update`
--   Cond, Cond/Upsert     pkg/cond/cond.go: `SetCondition`
--   Ami, Ami/*            pkg/manager_ami/ami.go: the images and the checks on them
--   Packer/Commands, .../*  pkg/manager_packer/command.go
--   Packer/Manager, Active, Cleanup, Images and below  pkg/manager_packer/manager.go
--   Packer/Job, Packer/Logs and below  pkg/manager_packer/job.go and logstream.go
--   Packer/Logs/Stream    the rest of logstream.go: `StreamLogs`, `processLogStream`
--   Eks, Eks/*            pkg/manager_eks/eks.go: the manager and the list of node groups; Trim
--                         `TrimNodeGroups`, Update `UpdateNodeGroupAMI`, Wait the wait for it
--   Finalizer, .../*      pkg/finalizer/finalizer.go: `HandleFinalizer`, on any kind of object
--   Refresher, .../*      internal/controller/ami/amirefresher_controller.go: `Reconcile` of an
--                         AMIRefresher, which uses the EKS manager, the AMI manager, the conditions
--                         and the finalizer; Groups and Deleted have proofs
--   Config, Config/*      pkg/config/config.go: the values in memory and where they are loaded from
--   Notifier, .../*       pkg/notifier: slack.go, and in Multi the other services and the sending to
--                         all of them
--   Controller, Controller/*  internal/controller/ami/packerbuilder_controller.go: State has what a
--                         reconciliation works on, Update `reconcileUpdate`, Handlers one function
--                         for each state, Watch the loop of a running build, in Pods what is polled
--                         for a pod's log, Reconcile `Reconcile` and `catchRek`; Steps, Transition, Avoids, Healthy and the files
--                         below have proofs
--   Env, Env/*            what the operator calls: the API server, AWS, Slack, the clock, the
--                         scheduler and parsers, as parameters on a world of which nothing is known
--   Go, Go/*              errors, results and actions: `Exec S A` is `S → Result A × S`, where what
--                         was written before an error stays written and a panic ends every caller
--   Prelude, Prelude/*    names from the libraries, tests, lists, integers, texts and maps
--   Tests, Tests/*        runs at concrete inputs
--
-- How it is modelled: a Go function is a function by clauses with the same order of calls, and
-- `if err != nil` is `handling`. The builder that a reconciliation changes in place is part of its
-- state, beside the runner that all builds share. A nil pointer is `none`, and a read through it
-- panics. A mutex makes a method one step. The goroutines of a running build are a sequence of
-- events in the order in which they take effect; the select of a timeout is a choice that the
-- scheduler makes. The wait for a node group is a sequence of ticks, calls and answers, and a stream
-- its lines. Loops go over lists, so no fuel is needed; the library's loop that polls for a pod's log
-- is a parameter. Log output is left out.
--
-- Not modelled: the goroutines of `watchBuild`, whose events reach the loop in an order that is a
-- parameter, and their clean-up, which only waits; `calculateRemainingTime`, whose text
-- is only logged; what deferred calls do when the process panics; the generated deep copies, since
-- objects of the model are values.
pub mod Prelude
pub mod Go
pub mod Api
pub mod Opsy
pub mod Env
pub mod Status
pub mod Events
pub mod Cond
pub mod Client
pub mod Packer
pub mod Ami
pub mod Eks
pub mod Config
pub mod Finalizer
pub mod Refresher
pub mod Notifier
pub mod Controller
pub mod Main
pub mod Tests
